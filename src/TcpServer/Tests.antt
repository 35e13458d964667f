-- ===== src/TcpServer/Tests.antt =====
-- A server at concrete inputs.
use my_cisdi_code.Prelude.{
  Bool, Bytes, [], ap, arith, codes, drop, equal, false, inl, ok, refl, true, ℕ, ◌%◌, ◌+◌, ◌/◌, ◌∷◌,
  ◌≡◌, ◌≤◌,
}
use my_cisdi_code.EventLoopThreadPool.{new_pool}
use my_cisdi_code.TcpServer.{
  Connection, TcpServer, conn_name, destroy, has, new_connection, new_server,
  remove_connection_in_loop,
}
use my_cisdi_code.TcpServer.Names.{IsDecimal, conn_name-other, count, one_if}
use my_cisdi_code.TcpServer.Serving.{
  IsServing, new_connection-IsServing, remove_connection-IsServing,
}

-- A text for each number below 2 ^ 31, in place of snprintf.
abbrev four_bytes : ℕ → Bytes
four_bytes n = (n / 16777216) ∷ (n / 65536 % 256) ∷ (n / 256 % 256) ∷ (n % 256) ∷ []

four_digits :
    (m n : ℕ)
    → m / 16777216 ≡ n / 16777216
    → m / 65536 % 256 ≡ n / 65536 % 256
    → m / 256 % 256 ≡ n / 256 % 256
    → m % 256 ≡ n % 256
    → m ≡ n
four_digits m n a b c d = omega arith

head_of : {a b : ℕ} {xs ys : Bytes} → a ∷ xs ≡ b ∷ ys → a ≡ b
head_of e = cc

four_bytes-IsDecimal : IsDecimal four_bytes
four_bytes-IsDecimal = record {
  distinct = λ m n hm hn e.
      four_digits m n (head_of e) (head_of (ap (drop 1) e)) (head_of (ap (drop 2) e))
        (head_of (ap (drop 3) e));
  short = λ n h. omega arith;
}

abbrev running : TcpServer
running = record (new_server 0 0 (codes "127.0.0.1:80") (codes "echo")) {
  pool = record (new_pool 0 0) { started = true };
  started = true;
  listening = true;
}

running-IsServing : IsServing four_bytes running
unfolding count
running-IsServing = record {
  fits = omega arith;
  pool_ready = (refl, inl refl);
  once = λ name. omega arith;
  kept = λ name. omega arith;
  fresh = λ id later below. refl;
}

new_connection-IsServing_example :
    (s' : TcpServer) × (c : Connection) × (new_connection four_bytes 9 running ≡ ok s')
    × IsServing four_bytes s'
    × (count c.name [] ≡ 0)
    × (s'.established ≡ c ∷ [])
    × ((name : Bytes) → count name s'.connections ≡ one_if (equal name c.name) + count name [])
new_connection-IsServing_example =
    new_connection-IsServing four_bytes four_bytes-IsDecimal running running-IsServing 9
      (omega arith)

abbrev first : Connection
first = record { name = conn_name four_bytes running 1; sockfd = 9; io_loop = 0 }

abbrev with_one : TcpServer
with_one = record running { next_conn_id = 2; connections = first ∷ []; established = first ∷ [] }

one_at_most : (b : Bool) → one_if b + 0 ≤ 1
one_at_most true = omega arith
one_at_most false = omega arith

with_one-IsServing : IsServing four_bytes with_one
unfolding count
with_one-IsServing = record {
  fits = omega arith;
  pool_ready = (refl, inl refl);
  once = λ name. one_at_most (equal name first.name);
  kept = λ name. omega arith;
  fresh = λ id later below.
      (let other =
          conn_name-other four_bytes four_bytes-IsDecimal running (omega arith) id 1 below
            (omega arith) (λ same. absurd (omega arith)) in
        rw other refl);
}

remove_connection-IsServing_example :
    (s' : TcpServer) × (remove_connection_in_loop first with_one ≡ ok s')
    × IsServing four_bytes s'
    × (s'.destroyed ≡ first ∷ [])
    × ((name : Bytes)
        → count name s'.connections + one_if (equal name first.name) ≡ count name (first ∷ []))
    × ((name : Bytes) → count name s'.destroyed ≤ 1)
    × ((name : Bytes) → count name (destroy s').destroyed ≡ count name (first ∷ []))
unfolding has equal
remove_connection-IsServing_example =
    remove_connection-IsServing four_bytes four_bytes-IsDecimal with_one with_one-IsServing first
      refl
