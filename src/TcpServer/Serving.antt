-- ===== src/TcpServer/Serving.antt =====
-- Every connection that the server establishes is destroyed once, and until then the server has it.
use my_cisdi_code.Prelude.{
  Bool-cases, Bytes, List, [], ap, arith, equal, equal_iff, false, get_elem?, if◌then◌else◌, inl,
  inr, leb, length, ok, refl, some, suc, true, zero, ℕ, ◌++◌, ◌+◌, ◌<◌, ◌^◌, ◌∙◌, ◌∷◌, ◌≡◌, ◌≤◌,
  ◌⊎◌,
}
use my_cisdi_code.EventLoopThreadPool.{EventLoopThreadPool, get_next_loop, is_empty}
use my_cisdi_code.TcpServer.{
  Connection, TcpServer, assign, conn_name, destroy, erase, has, new_connection,
  remove_connection_in_loop,
}
use my_cisdi_code.TcpServer.Names.{
  IsDecimal, appended, conn_name-other, count, count-append, count-assign, count-erase, one_if,
}

-- The pool has been started, and its index is in range.
abbrev pub IsPoolReady : EventLoopThreadPool → Type 0
IsPoolReady p = (p.started ≡ true) × ((is_empty p.loops ≡ true) ⊎ (p.next < length p.loops))

elem_at : (xs : List ℕ) (i : ℕ) → i < length xs → (x : ℕ) × (get_elem? xs i ≡ some x)
elem_at [] i h = absurd (omega arith)
elem_at (x ∷ xs) zero h = (x, refl)
elem_at (x ∷ xs) (suc i) h = elem_at xs i (omega arith)

next_in_range : (next n : ℕ) → next < n → (if leb n (next + 1) then 0 else next + 1) < n
next_in_range next n h = ground arith

next_base :
    (p : EventLoopThreadPool)
    → p.started ≡ true
    → is_empty p.loops ≡ true
    → get_next_loop p ≡ ok (p.base_loop, p)
unfolding get_next_loop
next_base p started empty = simp (started, empty)

abbrev turned : EventLoopThreadPool → EventLoopThreadPool
turned p = record p { next = if leb (length p.loops) (p.next + 1) then 0 else p.next + 1 }

next_turn :
    (p : EventLoopThreadPool) (l : ℕ)
    → p.started ≡ true
    → is_empty p.loops ≡ false
    → get_elem? p.loops p.next ≡ some l
    → get_next_loop p ≡ ok (l, turned p)
unfolding get_next_loop
next_turn p l started some_loops at = simp (started, some_loops, at)

get_next_loop-ready :
    (p : EventLoopThreadPool)
    → IsPoolReady p
    → (l : ℕ) × (p' : EventLoopThreadPool) × (get_next_loop p ≡ ok (l, p')) × IsPoolReady p'
get_next_loop-ready p (started, inl empty) =
    (p.base_loop, p, next_base p started empty, (started, inl empty))
get_next_loop-ready p (started, inr inside) = elim (Bool-cases (is_empty p.loops)) [
  | inl empty ↦ (p.base_loop, p, next_base p started empty, (started, inl empty))
  | inr some_loops ↦
      let (l, at) = elem_at p.loops p.next inside in
      (
        l,
        turned p,
        next_turn p l started some_loops at,
        (started, inr (next_in_range p.next (length p.loops) inside)),
      )
]

-- Names are counted in what was established, what the server has, and what was destroyed.
pub record IsServing (decimal : ℕ → Bytes) (s : TcpServer) : Type 0 where
  pub fits : length s.ip_port ≤ 51
  pub pool_ready : IsPoolReady s.pool
  pub once : (name : Bytes) → count name s.established ≤ 1
  pub kept :
      (name : Bytes) → count name s.established ≡ count name s.connections + count name s.destroyed
  pub fresh :
      (id : ℕ)
      → s.next_conn_id ≤ id
      → id < 2 ^ 31
      → count (conn_name decimal s id) s.established ≡ 0

module _ (decimal : ℕ → Bytes) (prints : IsDecimal decimal) (s : TcpServer)
    (serving : IsServing decimal s) where
  module _ (c : Connection) (named : c.name ≡ conn_name decimal s s.next_conn_id)
      (small : s.next_conn_id < 2 ^ 31) where
    new_name : count c.name s.established ≡ 0
    new_name = rw named (serving.fresh s.next_conn_id (omega arith) small)

    grows :
        (name : Bytes)
        → count name (s.established ++ (c ∷ []))
          ≡ count name s.established + one_if (equal name c.name)
    grows name = appended name s.established c

    absent : count c.name s.connections ≡ 0
    absent = let k = serving.kept c.name in let n = new_name in omega arith

    once_more : (name : Bytes) → count name (s.established ++ (c ∷ [])) ≤ 1
    once_more name = elim (Bool-cases (equal name c.name)) [
      | inl same ↦
          let e : name ≡ c.name = (equal_iff name c.name).0 same in
          let zero_before : count name s.established ≡ 0 =
            ap (λ n. count n s.established) e ∙ new_name in
          let one : one_if (equal name c.name) ≡ 1 = rw same refl in
          (let g = grows name in omega arith)
      | inr other ↦
          let none_more : one_if (equal name c.name) ≡ 0 = rw other refl in
          (let g = grows name in let o = serving.once name in omega arith)
    ]

  -- `newConnection` of a server whose pool runs, with fewer than 2 ^ 31 - 1 connections before: it fails
  -- nowhere, the connection gets a name that no other had, and it is in the server's table, which keeps
  -- the others, until it is removed.
  pub new_connection-IsServing :
      (sockfd : ℕ)
      → s.next_conn_id < 2 ^ 31
      → (s' : TcpServer) × (c : Connection) × (new_connection decimal sockfd s ≡ ok s')
        × IsServing decimal s'
        × (count c.name s.established ≡ 0)
        × (s'.established ≡ s.established ++ (c ∷ []))
        × ((name : Bytes)
            → count name s'.connections ≡ one_if (equal name c.name) + count name s.connections)
  unfolding new_connection
  new_connection-IsServing sockfd small =
      let (l, pool', e, ready) = get_next_loop-ready s.pool serving.pool_ready in
      let c : Connection = record {
        name = conn_name decimal s s.next_conn_id;
        sockfd = sockfd;
        io_loop = l;
      } in
      let added = λ (name : Bytes). count-assign name c s.connections (absent c refl small) in
      rw e (
        record s {
          pool = pool';
          next_conn_id = s.next_conn_id + 1;
          connections = assign c s.connections;
          established = s.established ++ (c ∷ []);
        },
        c,
        refl,
        record {
          fits = serving.fits;
          pool_ready = ready;
          once = once_more c refl small;
          kept = λ name.
              (let a = added name in
                let g = grows c refl small name in let k = serving.kept name in omega arith);
          fresh = λ id later below.
              (let g = grows c refl small (conn_name decimal s id) in
                let old = serving.fresh id (omega arith) below in
                let other =
                  conn_name-other decimal prints s serving.fits id s.next_conn_id below small
                    (λ same. absurd (omega arith)) in
                let none_more : one_if (equal (conn_name decimal s id) c.name) ≡ 0 =
                  rw other refl in
                omega arith);
        },
        new_name c refl small,
        refl,
        added,
      )

  -- `removeConnectionInLoop` of a connection that the server has fails no assertion, hands it over to be
  -- destroyed, and takes just that one out of the table; no name is ever destroyed twice, and what the
  -- destructor then hands over completes it: each name is destroyed as often as it was established.
  pub remove_connection-IsServing :
      (c : Connection)
      → has c.name s.connections ≡ true
      → (s' : TcpServer) × (remove_connection_in_loop c s ≡ ok s')
        × IsServing decimal s'
        × (s'.destroyed ≡ s.destroyed ++ (c ∷ []))
        × ((name : Bytes)
            → count name s'.connections + one_if (equal name c.name) ≡ count name s.connections)
        × ((name : Bytes) → count name s'.destroyed ≤ 1)
        × ((name : Bytes) → count name (destroy s').destroyed ≡ count name s.established)
  unfolding remove_connection_in_loop
  remove_connection-IsServing c there =
      let erased = λ (name : Bytes). count-erase name c.name s.connections there in
      let gone = λ (name : Bytes). appended name s.destroyed c in
      rw there (
        record s { connections = erase c.name s.connections; destroyed = s.destroyed ++ (c ∷ []) },
        refl,
        record {
          fits = serving.fits;
          pool_ready = serving.pool_ready;
          once = serving.once;
          kept = λ name.
              (let a = erased name in
                let g = gone name in let k = serving.kept name in omega arith);
          fresh = serving.fresh;
        },
        refl,
        erased,
        (λ name.
            (let a = erased name in
              let g = gone name in
              let k = serving.kept name in let o = serving.once name in omega arith)),
        λ name.
            (let a = erased name in
              let g = gone name in
              let k = serving.kept name in
              let d = count-append name (s.destroyed ++ (c ∷ [])) (erase c.name s.connections) in
              omega arith),
      )
