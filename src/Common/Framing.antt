-- ===== src/Common/Framing.antt =====
-- `to_binary` and `from_binary`, awex/util/common.py: a length of four bytes, most significant first,
-- and the pickled data. `pickle.dumps` and `pickle.loads` are parameters.
pub mod Roundtrip
use asystem_awex.Prelude.{
  ℕ, ◌+◌, ◌*◌, ◌/◌, ◌%◌, ◌^◌, List, [], ◌∷◌, ◌++◌, length, take, ltb, if◌then◌else◌,
}
use asystem_awex.Prelude.Result.{Result, ok, err, struct_error, guard, ◌>>=◌, ◌>>◌}

abbrev pub Bytes : Type 0
Bytes = List ℕ

-- What pickle offers. The dump of an object of the program always succeeds.
pub record Pickle (A : Type 0) : Type 0 where
  pub dumps : A → Bytes
  pub loads : Bytes → Result A

-- struct.pack("!I", n)
unfoldable pub pack : ℕ → Result Bytes
pack n = do
  guard (ltb n (2 ^ 32)) struct_error
  ok ((n / 16777216) ∷ (n / 65536 % 256) ∷ (n / 256 % 256) ∷ (n % 256) ∷ [])

-- struct.unpack("!I", binary[:4])[0], with the bytes behind
unfoldable pub unpack : Bytes → Result (ℕ × Bytes)
unpack (a ∷ b ∷ c ∷ d ∷ rest) = ok (a * 16777216 + b * 65536 + c * 256 + d, rest)
unpack _ = err struct_error

module _ {A : Type 0} (pickle : Pickle A) where
  unfoldable pub to_binary : A → Result Bytes
  unfolding pack
  to_binary object = do
    let pickled_data = pickle.dumps object
    head ← pack (length pickled_data)
    ok (head ++ pickled_data)

  -- binary[4 : 4 + data_len] stops at the end of the bytes.
  unfoldable pub from_binary : Bytes → Result A
  unfolding unpack
  from_binary binary = do found ← unpack binary; pickle.loads (take found.0 found.1)
