-- ===== src/Common/Framing/Roundtrip.antt =====
-- What is packed is unpacked.
use asystem_awex.Prelude.{
  ℕ, ◌+◌, ◌*◌, ◌/◌, ◌%◌, ◌^◌, ◌<◌, ◌≡◌, refl, sym, ap, ◌∙◌, subst, append-nil, length-append,
  ltb→lt, List, [], ◌∷◌, ◌++◌, length, take, true, arith, ltb, lt→ltb,
}
use asystem_awex.Prelude.Result.{ok, err, struct_error, guard, ok-injective, >>=-eq-ok, guard-eq-ok}
use asystem_awex.Common.Framing.{Bytes, Pickle, pack, unpack, to_binary, from_binary}

take_front {ℓ} : {A : Type ℓ} (xs ys : List A) → take (length xs) (xs ++ ys) ≡ xs
take_front [] ys = refl
take_front (x ∷ xs) ys = ap (◌∷◌ x) (take_front xs ys)

four_bytes :
    (n : ℕ) → n / 16777216 * 16777216 + n / 65536 % 256 * 65536 + n / 256 % 256 * 256 + n % 256 ≡ n
four_bytes n = omega arith

-- An object whose pickled data has less than 2 ^ 32 bytes, and that pickle reads back, is framed by
-- to_binary, and from_binary reads it back from the frame, whatever bytes follow the frame.
pub from_binary-to_binary :
    {A : Type 0} (pickle : Pickle A) (object : A) (after : Bytes)
    → length (pickle.dumps object) < 2 ^ 32
    → pickle.loads (pickle.dumps object) ≡ ok object
    → (frame : Bytes) × (to_binary pickle object ≡ ok frame)
      × (from_binary pickle (frame ++ after) ≡ ok object)
unfolding to_binary from_binary pack unpack
from_binary-to_binary pickle object after short reads =
    let n = length (pickle.dumps object) in
    let fits : ltb n (2 ^ 32) ≡ true = lt→ltb n (2 ^ 32) short in
    (
      (n / 16777216) ∷ (n / 65536 % 256) ∷ (n / 256 % 256) ∷ (n % 256) ∷ pickle.dumps object,
      rw (fits, guard) refl,
      ap (λ m. pickle.loads (take m (pickle.dumps object ++ after))) (four_bytes n)
          ∙ ap pickle.loads (take_front (pickle.dumps object) after)
          ∙ reads,
    )

-- Bytes too short for the length, as an empty body, raise.
pub from_binary-short :
    {A : Type 0} (pickle : Pickle A) (binary : Bytes)
    → length binary < 4
    → from_binary pickle binary ≡ err struct_error
unfolding from_binary unpack
from_binary-short pickle [] h = refl
from_binary-short pickle (a ∷ []) h = refl
from_binary-short pickle (a ∷ b ∷ []) h = refl
from_binary-short pickle (a ∷ b ∷ c ∷ []) h = refl
from_binary-short pickle (a ∷ b ∷ c ∷ d ∷ rest) h = absurd (omega arith)

-- Data of less than 2 ^ 32 bytes has a frame.
pub to_binary-fits :
    {A : Type 0} (pickle : Pickle A) (object : A)
    → length (pickle.dumps object) < 2 ^ 32
    → (frame : Bytes) × (to_binary pickle object ≡ ok frame)
unfolding to_binary pack
to_binary-fits pickle object short =
    let n = length (pickle.dumps object) in
    let fits : ltb n (2 ^ 32) ≡ true = lt→ltb n (2 ^ 32) short in
    (
      (n / 16777216) ∷ (n / 65536 % 256) ∷ (n / 256 % 256) ∷ (n % 256) ∷ pickle.dumps object,
      rw (fits, guard) refl,
    )

-- A frame is four bytes longer than the data.
pub length-to_binary :
    {A : Type 0} (pickle : Pickle A) (object : A) (frame : Bytes)
    → to_binary pickle object ≡ ok frame
    → length frame ≡ length (pickle.dumps object) + 4
unfolding to_binary pack
length-to_binary pickle object frame made =
    let (head, packed, joined) = >>=-eq-ok (pack (length (pickle.dumps object))) _ made in
    let (fits, done) = guard-eq-ok (ltb (length (pickle.dumps object)) (2 ^ 32)) _ _ packed in
    let four = ap length (sym (ok-injective done)) in
    let whole = ap length (sym (ok-injective joined)) in
    let parts = length-append head (pickle.dumps object) in omega (arith, four, whole, parts)

-- What to_binary makes is read back as pickle reads the data back.
pub from_binary-framed :
    {A : Type 0} (pickle : Pickle A) (object : A) (frame : Bytes)
    → pickle.loads (pickle.dumps object) ≡ ok object
    → to_binary pickle object ≡ ok frame
    → from_binary pickle frame ≡ ok object
unfolding to_binary pack
from_binary-framed pickle object frame reads made =
    let (head, packed, joined) = >>=-eq-ok (pack (length (pickle.dumps object))) _ made in
    let (fits, done) = guard-eq-ok (ltb (length (pickle.dumps object)) (2 ^ 32)) _ _ packed in
    let short = ltb→lt (length (pickle.dumps object)) (2 ^ 32) fits in
    let (frame', made', back) = from_binary-to_binary pickle object [] short reads in
    let same = ok-injective (sym made' ∙ made) in
    subst (λ f. from_binary pickle f ≡ ok object) (append-nil frame' ∙ same) back
