-- ===== src/Protocol/Truncation.antt =====
-- The readers of reader.go on a frame that the connection cuts off, and readers that do not look past
-- what they take.
use Prim.Native.String.{String}
use n_backup.Prelude.{
  ℕ, zero, suc, ◌^◌, ◌<◌, ◌≤◌, ◌≡◌, refl, ap, arith, List, [], ◌∷◌, ◌++◌, length, take, drop,
  length-append,
}
use n_backup.Protocol.Wire.{
  Reader, Result, Error, ok, err, stream, ◌>>=◌, and_then, done, read_byte, read_full, read_uint,
}
use n_backup.Protocol.Writer.{write_chunk_header}
use n_backup.Protocol.Reader.{read_chunk_header}
use n_backup.Protocol.RoundTrip.{read_chunk_header-write_chunk_header}

-- More input behind what a reader took changes nothing but what is left.
pub record IsStable {A : Type 0} (r : Reader A) : Type 0 where
  pub apply :
      (s more : List ℕ) (a : A) (rest : List ℕ)
      → r s ≡ ok (a, rest)
      → r (s ++ more) ≡ ok (a, rest ++ more)

and_then-ok :
    {A B : Type 0} (m : Result (A × List ℕ)) (f : A → Reader B) (b : B × List ℕ)
    → and_then m f ≡ ok b
    → (a : A) × (s : List ℕ) × (m ≡ ok (a, s)) × (f a s ≡ ok b)
and_then-ok (ok (a, s)) f b h = (a, s, refl, h)
and_then-ok (err e) f b h = cc

pub >>=-IsStable :
    {A B : Type 0} {m : Reader A} {f : A → Reader B}
    → IsStable m
    → ((a : A) → IsStable (f a))
    → IsStable (m >>= f)
>>=-IsStable {m} {f} hm hf = record {
  apply = λ s more b rest h.
      let (a, s', e, e') = and_then-ok (m s) f (b, rest) h in
      rw (hm.apply s more a s' e) ((hf a).apply s' more b rest e');
}

pub done-IsStable : {A : Type 0} (a : A) → IsStable (done a)
done-IsStable a = record { apply = λ s more b rest h. ground arith }

take-append_le {ℓ} :
    {A : Type ℓ} (n : ℕ) (xs ys : List A) → n ≤ length xs → take n (xs ++ ys) ≡ take n xs
take-append_le zero xs ys h = refl
take-append_le (suc n) [] ys h = absurd (omega arith)
take-append_le (suc n) (x ∷ xs) ys h = ap (◌∷◌ x) (take-append_le n xs ys (omega arith))

drop-append_le {ℓ} :
    {A : Type ℓ} (n : ℕ) (xs ys : List A) → n ≤ length xs → drop n (xs ++ ys) ≡ drop n xs ++ ys
drop-append_le zero xs ys h = refl
drop-append_le (suc n) [] ys h = absurd (omega arith)
drop-append_le (suc n) (x ∷ xs) ys h = drop-append_le n xs ys (omega arith)

pub read_full-IsStable : (n : ℕ) (what : String) → IsStable (read_full n what)
unfolding read_full
read_full-IsStable n what = record {
  apply = λ s more a rest h.
      ground (arith, length-append s more, take-append_le n s more, drop-append_le n s more);
}

pub read_byte-IsStable : (what : String) → IsStable (read_byte what)
unfolding read_byte
read_byte-IsStable what = record { apply = go }
  where
    go :
        (s more : List ℕ) (a : ℕ) (rest : List ℕ)
        → read_byte what s ≡ ok (a, rest)
        → read_byte what (s ++ more) ≡ ok (a, rest ++ more)
    go [] more a rest h = cc
    go (b ∷ s) more a rest h = ground arith

pub read_uint-IsStable : (k : ℕ) (what : String) → IsStable (read_uint k what)
unfolding read_uint
read_uint-IsStable k what = >>=-IsStable (read_full-IsStable k what) (λ bytes. done-IsStable _)

abbrev taken : List ℕ → List ℕ → Result (List ℕ × List ℕ)
taken line s = ok (line, s)

-- A stable reader that takes the whole of a frame fails on each proper prefix of it.
pub IsStable-cut :
    {A : Type 0} (r : Reader A) (front : List ℕ) (x : ℕ) (back : List ℕ) (a : A)
    → IsStable r
    → r (front ++ (x ∷ back)) ≡ ok (a, [])
    → (e : Error) × (r front ≡ err e)
IsStable-cut r front x back a st h = go (r front) refl
  where
    go : (m : Result _) → r front ≡ m → (e : Error) × (r front ≡ err e)
    go (ok (b, rest)) e =
        absurd
          (ground (arith, h, st.apply front (x ∷ back) b rest e, length-append rest (x ∷ back)))
    go (err e) e' = (e, e')

read_chunk_header-IsStable : IsStable read_chunk_header
unfolding read_chunk_header
read_chunk_header-IsStable = >>=-IsStable (read_uint-IsStable 4 _) (λ global_seq.
    >>=-IsStable (read_uint-IsStable 4 _) (λ len.
      >>=-IsStable (read_byte-IsStable _)
        (λ slot_id. >>=-IsStable (read_uint-IsStable 4 _) (λ crc32. done-IsStable _))))

-- ReadChunkHeader fails on each proper prefix of what WriteChunkHeader sends.
pub read_chunk_header_cut :
    (global_seq len slot_id crc32 : ℕ) (front : List ℕ) (x : ℕ) (back : List ℕ)
    → global_seq < 2 ^ 32
    → len < 2 ^ 32
    → crc32 < 2 ^ 32
    → stream (write_chunk_header global_seq len slot_id crc32) [] ≡ front ++ (x ∷ back)
    → (e : Error) × (read_chunk_header front ≡ err e)
read_chunk_header_cut global_seq len slot_id crc32 front x back hg hl hc e =
    IsStable-cut read_chunk_header front x back _ read_chunk_header-IsStable
      (rw e at (read_chunk_header-write_chunk_header global_seq len slot_id crc32 [] hg hl hc))
