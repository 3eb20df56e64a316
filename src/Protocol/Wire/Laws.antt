-- ===== src/Protocol/Wire/Laws.antt =====
-- Each elementary reader takes back what the matching writer put.
use Prim.Native.String.{String}
use native.Mathlib.Nat.{pow-suc}
use n_backup.Prelude.{
  ℕ, zero, suc, ◌+◌, ◌*◌, ◌/◌, ◌%◌, ◌^◌, ◌<◌, ◌≡◌, refl, ap, ◌∙◌, arith, true, List, [], ◌∷◌, ◌++◌,
  length, length-append, take-length-append, drop-length-append, ge→ltb, ==_self,
}
use n_backup.Protocol.Wire.{ok, read_full, read_uint, read_magic, put_be, get_be, bytes_eq}

pub read_full-append :
    (n : ℕ) (what : String) (xs rest : List ℕ)
    → length xs ≡ n
    → read_full n what (xs ++ rest) ≡ ok (xs, rest)
unfolding read_full
read_full-append n what xs rest e =
    rw (← e, ge→ltb (length (xs ++ rest)) (length xs) (omega (arith, length-append xs rest)))
      (rw (take-length-append xs rest, drop-length-append xs rest))

pub length-put_be : (k v : ℕ) → length (put_be k v) ≡ k
unfolding put_be
length-put_be zero v = refl
length-put_be (suc k) v =
    omega (arith, length-append (put_be k (v / 256)) (v % 256 ∷ []), length-put_be k (v / 256))

get_be-append : (acc : ℕ) (xs ys : List ℕ) → get_be acc (xs ++ ys) ≡ get_be (get_be acc xs) ys
unfolding get_be
get_be-append acc [] ys = refl
get_be-append acc (x ∷ xs) ys = get_be-append (acc * 256 + x) xs ys

pub get_be-put_be : (k v acc : ℕ) → v < 256 ^ k → get_be acc (put_be k v) ≡ acc * 256 ^ k + v
unfolding put_be get_be
get_be-put_be zero v acc h = omega arith
get_be-put_be (suc k) v acc h =
    get_be-append acc (put_be k (v / 256)) (v % 256 ∷ [])
    ∙ omega (
      arith,
      pow-suc 256 k,
      ap (λ (t : ℕ). acc * t) (pow-suc 256 k),
      get_be-put_be k (v / 256) acc (omega (arith, pow-suc 256 k)),
    )

pub read_uint-put_be :
    (k : ℕ) (what : String) (v : ℕ) (rest : List ℕ)
    → v < 256 ^ k
    → read_uint k what (put_be k v ++ rest) ≡ ok (v, rest)
unfolding read_uint
read_uint-put_be k what v rest h =
    rw (read_full-append k what (put_be k v) rest (length-put_be k v), get_be-put_be k v 0 h)
      (ap (λ (n : ℕ). ok (n, rest)) (omega arith))

pub bytes_eq_self : (xs : List ℕ) → bytes_eq xs xs ≡ true
unfolding bytes_eq
bytes_eq_self [] = refl
bytes_eq_self (x ∷ xs) = rw (==_self x) (bytes_eq_self xs)

pub read_magic-append :
    (magic : List ℕ) (what : String) (rest : List ℕ)
    → length magic ≡ 4
    → read_magic magic what (magic ++ rest) ≡ ok (tt, rest)
unfolding read_magic
read_magic-append magic what rest e = rw (read_full-append 4 what magic rest e, bytes_eq_self magic)
