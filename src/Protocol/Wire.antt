-- ===== src/Protocol/Wire.antt =====
-- The readers and writers of internal/protocol over byte lists. A reader takes the bytes that its
-- connection still delivers, up to the end of input, and returns a value with the bytes that follow.
-- A writer is the list of its `w.Write` calls. A byte is a number below 256.
--
-- `bufio.NewReader(r)` is taken as a view of the same bytes: what follows a frame is what that
-- bufio.Reader still has.
pub mod Laws
use Prim.Native.String.{String}
use n_backup.Prelude.{
  ℕ, zero, suc, ◌+◌, ◌*◌, ◌/◌, ◌%◌, ◌<◌, ◌≡◌, ◌&&◌, Bool, true, false, List, [], ◌∷◌, ◌++◌, length,
  take, drop, All, ltb, ◌==◌, if◌then◌else◌,
}

-- Why io or bufio gave no bytes, and ErrLineTooLong.
pub data Cause : Type 0 where
  eof : Cause
  unexpected_eof : Cause
  line_too_long : Cause

-- ErrInvalidMagic, ErrInvalidVersion, and `fmt.Errorf("reading <what>: %w", cause)`.
pub data Error : Type 0 where
  invalid_magic : Error
  invalid_version : Error
  reading : String → Cause → Error

pub data Result {ℓ} (A : Type ℓ) : Type ℓ where
  ok : A → Result A
  err : Error → Result A

abbrev pub Reader : Type 0 → Type 0
Reader A = List ℕ → Result (A × List ℕ)

-- By clauses, so that `rw` sees the result that a bind waits on.
abbrev pub and_then : {A B : Type 0} → Result (A × List ℕ) → (A → Reader B) → Result (B × List ℕ)
and_then (ok (a, s)) f = f a s
and_then (err e) f = err e

infixl 5 ◌>>=◌ ◌>>◌
abbrev pub ◌>>=◌ : {A B : Type 0} → Reader A → (A → Reader B) → Reader B
◌>>=◌ m f s = and_then (m s) f

abbrev pub ◌>>◌ : {B : Type 0} → Reader (Unit {0}) → Reader B → Reader B
◌>>◌ m k s = and_then (m s) (λ _. k)

abbrev pub done : {A : Type 0} → A → Reader A
done a s = ok (a, s)

abbrev pub fail : {A : Type 0} → Error → Reader A
fail e s = err e

-- io.ReadFull into n bytes: io.EOF if there is none, io.ErrUnexpectedEOF if there are too few.
unfoldable pub read_full : ℕ → String → Reader (List ℕ)
read_full n what s =
    if ltb (length s) n
    then err (reading what (if length s == 0 then eof else unexpected_eof))
    else ok (take n s, drop n s)

-- io.ReadFull into one byte.
unfoldable pub read_byte : String → Reader ℕ
read_byte what [] = err (reading what eof)
read_byte what (b ∷ s) = ok (b, s)

-- binary.BigEndian: the `k` lowest bytes of a number, the highest first.
unfoldable pub put_be : ℕ → ℕ → List ℕ
put_be zero v = []
put_be (suc k) v = put_be k (v / 256) ++ (v % 256 ∷ [])

unfoldable pub get_be : ℕ → List ℕ → ℕ
get_be acc [] = acc
get_be acc (b ∷ bs) = get_be (acc * 256 + b) bs

-- binary.Read(r, binary.BigEndian, &v) for an unsigned integer of `k` bytes.
unfoldable pub read_uint : ℕ → String → Reader ℕ
read_uint k what = do bytes ← read_full k what; done (get_be 0 bytes)

-- Comparison of byte arrays.
unfoldable pub bytes_eq : List ℕ → List ℕ → Bool
bytes_eq [] [] = true
bytes_eq [] (y ∷ ys) = false
bytes_eq (x ∷ xs) [] = false
bytes_eq (x ∷ xs) (y ∷ ys) = (x == y) && bytes_eq xs ys

-- Reads 4 bytes and compares them with a magic.
unfoldable pub read_magic : List ℕ → String → Reader (Unit {0})
read_magic magic what = do
  bytes ← read_full 4 what
  if bytes_eq bytes magic then done tt else fail invalid_magic

abbrev pub cons_byte : ℕ → Result (List ℕ × List ℕ) → Result (List ℕ × List ℕ)
cons_byte b (ok (line, s)) = ok (b ∷ line, s)
cons_byte b (err e) = err e

-- bufio.Reader.ReadString('\n') without the delimiter, which the callers cut off.
unfoldable pub read_string : String → Reader (List ℕ)
read_string what [] = err (reading what eof)
read_string what (b ∷ s) = if b == 10 then ok ([], s) else cons_byte b (read_string what s)

-- A line of text that can be sent with a newline behind it.
abbrev pub IsLine : List ℕ → Type 0
IsLine = All (λ b. (b == 10) ≡ false)

-- What a sequence of Write calls puts in front of the bytes `rest`.
abbrev pub stream : List (List ℕ) → List ℕ → List ℕ
stream [] rest = rest
stream (w ∷ ws) rest = w ++ stream ws rest
