-- ===== src/TcpServer/Names.antt =====
-- How often a name stands in a list of connections, and that new names are new.
use my_cisdi_code.Prelude.{
  Bool, Bool-cases, Bytes, List, [], ap, arith, drop, equal, equal_iff, false, inl, inr, length,
  length-append, refl, sym, take, take_all, true, ℕ, ◌++◌, ◌+◌, ◌<◌, ◌^◌, ◌∙◌, ◌∷◌, ◌≡◌, ◌≢◌, ◌≤◌,
}
use my_cisdi_code.TcpServer.{Connection, TcpServer, assign, conn_name, erase, has}
use mathlib.Core.List.{append_cancel_left}

abbrev pub one_if : Bool → ℕ
one_if true = 1
one_if false = 0

unfoldable pub count : Bytes → List Connection → ℕ
count name [] = 0
count name (c ∷ cs) = one_if (equal name c.name) + count name cs

pub count-append :
    (name : Bytes) (cs ds : List Connection) → count name (cs ++ ds) ≡ count name cs + count name ds
unfolding count
count-append name [] ds = omega arith
count-append name (c ∷ cs) ds = omega (arith, count-append name cs ds)

pub appended :
    (name : Bytes) (cs : List Connection) (c : Connection)
    → count name (cs ++ (c ∷ [])) ≡ count name cs + one_if (equal name c.name)
unfolding count
appended name cs c = omega (arith, count-append name cs (c ∷ []))

pub count-assign :
    (name : Bytes) (c : Connection) (cs : List Connection)
    → count c.name cs ≡ 0
    → count name (assign c cs) ≡ one_if (equal name c.name) + count name cs
unfolding count assign
count-assign name c [] h = refl
count-assign name c (d ∷ ds) h = elim (Bool-cases (equal c.name d.name)) [
  | inl same ↦ absurd (ground arith)
  | inr other ↦ rw other (let k = count-assign name c ds (ground arith) in omega arith)
]

pub count-erase :
    (name key : Bytes) (cs : List Connection)
    → has key cs ≡ true
    → count name (erase key cs) + one_if (equal name key) ≡ count name cs
unfolding count erase has
count-erase name key [] h = absurd (cc)
count-erase name key (d ∷ ds) h = elim (Bool-cases (equal key d.name)) [
  | inl same ↦
      let e : key ≡ d.name = (equal_iff key d.name).0 same in
      rw same (let f : equal name key ≡ equal name d.name = ap (equal name) e in rw f (omega arith))
  | inr other ↦ rw other (let k = count-erase name key ds (ground arith) in omega arith)
]

-- `%d` gives different texts for different numbers, of at most ten bytes.
pub record IsDecimal (decimal : ℕ → Bytes) : Type 0 where
  pub distinct : (m n : ℕ) → m < 2 ^ 31 → n < 2 ^ 31 → decimal m ≡ decimal n → m ≡ n
  pub short : (n : ℕ) → n < 2 ^ 31 → length (decimal n) ≤ 10

module _ (decimal : ℕ → Bytes) (prints : IsDecimal decimal) (s : TcpServer)
    (fits : length s.ip_port ≤ 51) where
  suffix : ℕ → Bytes
  suffix id = b'-' ∷ (s.ip_port ++ (b'#' ∷ decimal id))

  whole : (id : ℕ) → id < 2 ^ 31 → take 63 (suffix id) ≡ suffix id
  unfolding suffix
  whole id h =
      take_all 63 (suffix id)
        (let k = prints.short id h in omega (arith, length-append s.ip_port (b'#' ∷ decimal id)))

  pub conn_name-other :
      (m n : ℕ)
      → m < 2 ^ 31
      → n < 2 ^ 31
      → m ≢ n
      → equal (conn_name decimal s m) (conn_name decimal s n) ≡ false
  unfolding suffix
  conn_name-other m n hm hn apart =
      elim (Bool-cases (equal (conn_name decimal s m) (conn_name decimal s n))) [
        | inr other ↦ other
        | inl same ↦
            let e = (equal_iff (conn_name decimal s m) (conn_name decimal s n)).0 same in
            let f = append_cancel_left s.name (take 63 (suffix m)) (take 63 (suffix n)) e in
            let g : suffix m ≡ suffix n = sym (whole m hm) ∙ f ∙ whole n hn in
            let k = append_cancel_left (b'-' ∷ s.ip_port) (b'#' ∷ decimal m) (b'#' ∷ decimal n) g in
            absurd (apart (prints.distinct m n hm hn (ap (drop 1) k)))
      ]
