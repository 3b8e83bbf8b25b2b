-- ===== src/Evaluation/Hashing.antt =====
-- backend/app/evaluation/hashing.py: the bucket of a subject.
pub mod Framing
use Prim.Native.Char.{code}
use cohort_switch.Prelude.{
  ℕ, ◌+◌, ◌-◌, ◌*◌, ◌/◌, ◌%◌, ◌^◌, String, List, [], ◌∷◌, ◌++◌, ltb, if◌then◌else◌, length,
}
use cohort_switch.Errors.{Result, ok, err, overflow_error, ◌>>=◌}
use cohort_switch.Runtime.{Runtime}

abbrev pub default_evaluation_namespace : String
default_evaluation_namespace = "fv9"

abbrev pub bucket_count : ℕ
bucket_count = 10000

-- The UTF-8 bytes of one code point.
unfoldable pub encode_code : ℕ → List ℕ
encode_code c =
    if ltb c 128
    then c ∷ []
    else if ltb c 2048
    then (192 + c / 64) ∷ (128 + c % 64) ∷ []
    else if ltb c 65536
    then (224 + c / 4096) ∷ (128 + c / 64 % 64) ∷ (128 + c % 64) ∷ []
    else (240 + c / 262144) ∷ (128 + c / 4096 % 64) ∷ (128 + c / 64 % 64) ∷ (128 + c % 64) ∷ []

-- `part.encode("utf-8")`
unfoldable pub encode : String → List ℕ
unfolding encode_code
encode String.[] = []
encode (String.◌∷◌ c s) = encode_code (code c) ++ encode s

-- `n.to_bytes(4, "big")`
unfoldable pub to_bytes : ℕ → Result (List ℕ)
to_bytes n =
    if ltb n (2 ^ 32)
    then ok (n / 16777216 ∷ n / 65536 % 256 ∷ n / 256 % 256 ∷ n % 256 ∷ [])
    else err overflow_error

-- The bytes that the loop over `parts` feeds to the digest.
unfoldable pub message : List String → Result (List ℕ)
unfolding to_bytes encode
message [] = ok []
message (part ∷ parts) = do
  size ← to_bytes (length (encode part))
  rest ← message parts
  ok (size ++ encode part ++ rest)

-- The number that big-endian bytes stand for, after `acc`.
unfoldable pub from_bytes : ℕ → List ℕ → ℕ
from_bytes acc [] = acc
from_bytes acc (b ∷ bs) = from_bytes (acc * 256 + b) bs

-- `digest[:n]`
unfoldable pub first_bytes : ℕ → List ℕ → List ℕ
first_bytes ℕ.zero bs = []
first_bytes (ℕ.suc n) [] = []
first_bytes (ℕ.suc n) (b ∷ bs) = b ∷ first_bytes n bs

unfoldable pub stable_bucket :
    Runtime → String → String → String → String → String → String → Result ℕ
unfolding message from_bytes first_bytes
stable_bucket rt namespace project_id environment_id flag_key subject_key salt = do
  input ← message (namespace ∷ project_id ∷ environment_id ∷ flag_key ∷ subject_key ∷ salt ∷ [])
  ok (from_bytes 0 (first_bytes 8 (rt.blake2b input)) % bucket_count)
