-- ===== src/Evaluation/Hashing/Framing.antt =====
-- backend/app/evaluation/hashing.py: the framing of the hash input, and the range of a bucket.
use Prim.Native.Char.{code, Char}
use mathlib.Core.Path.{ap₂}
use mathlib.Core.List.{append_assoc}
use text.Mathlib.TextEquality.{Char-path}
use cohort_switch.Prelude.{
  ℕ, ◌<◌, ◌≡◌, refl, sym, ◌∙◌, ◌≢◌, String, List, [], ◌∷◌, ◌++◌, length, arith,
}
use cohort_switch.Errors.{ok, >>=-eq-ok}
use cohort_switch.Evaluation.Hashing.{
  encode_code, encode, to_bytes, message, stable_bucket, bucket_count,
}
use cohort_switch.Runtime.{Runtime}

encode_code-cancel :
    (c d : ℕ) (r s : List ℕ)
    → c < 1114112
    → d < 1114112
    → encode_code c ++ r ≡ encode_code d ++ s
    → (c ≡ d) × (r ≡ s)
unfolding encode_code
encode_code-cancel c d r s hc hd h = ground arith

to_bytes-cancel :
    (m n : ℕ) {a b : List ℕ} (r s : List ℕ)
    → to_bytes m ≡ ok a
    → to_bytes n ≡ ok b
    → a ++ r ≡ b ++ s
    → (m ≡ n) × (r ≡ s)
unfolding to_bytes
to_bytes-cancel m n r s ha hb h = ground arith

append_cancel : (a b r s : List ℕ) → length a ≡ length b → a ++ r ≡ b ++ s → (a ≡ b) × (r ≡ s)
append_cancel [] [] r s e h = (refl, h)
append_cancel [] (y ∷ b) r s e h = absurd (omega arith)
append_cancel (x ∷ a) [] r s e h = absurd (omega arith)
append_cancel (x ∷ a) (y ∷ b) r s e h = ground (arith, append_cancel a b r s)

code-lt : (c : Char) → code c < 1114112
code-lt (Char.char n h) = ground arith

encode_code-ne-nil : (c : ℕ) (r : List ℕ) → encode_code c ++ r ≢ []
unfolding encode_code
encode_code-ne-nil c r h = ground arith

pub encode-injective : (s t : String) → encode s ≡ encode t → s ≡ t
unfolding encode
encode-injective String.[] String.[] h = refl
encode-injective String.[] (String.◌∷◌ d t) h = absurd (encode_code-ne-nil (code d) _ (sym h))
encode-injective (String.◌∷◌ c s) String.[] h = absurd (encode_code-ne-nil (code c) _ h)
encode-injective (String.◌∷◌ c s) (String.◌∷◌ d t) h =
    let split : (code c ≡ code d) × (encode s ≡ encode t) =
      encode_code-cancel (code c) (code d) _ _ (code-lt c) (code-lt d) h in
    ap₂ (λ a b. String.◌∷◌ a b) (Char-path c d split.0) (encode-injective s t split.1)

-- What a message of one more part is made of.
message-parts :
    (p : String) (ps : List String) {m : List ℕ}
    → message (p ∷ ps) ≡ ok m
    → (size rest : List ℕ) × (to_bytes (length (encode p)) ≡ ok size)
      × (message ps ≡ ok rest)
      × (size ++ encode p ++ rest ≡ m)
unfolding message
message-parts p ps h =
    let (size, sized, h') = >>=-eq-ok (to_bytes (length (encode p))) _ h in
    let (rest, framed, h'') = >>=-eq-ok (message ps) _ h' in
    (size, rest, sized, framed, ground arith)

-- Two lists of as many parts that give one message are equal.
pub message-injective :
    (ps qs : List String) {m n : List ℕ}
    → length ps ≡ length qs
    → message ps ≡ ok m
    → message qs ≡ ok n
    → m ≡ n
    → ps ≡ qs
message-injective [] [] e hp hq h = refl
message-injective [] (q ∷ qs) e hp hq h = absurd (omega arith)
message-injective (p ∷ ps) [] e hp hq h = absurd (omega arith)
message-injective (p ∷ ps) (q ∷ qs) e hp hq h =
    let (size, rest, sized, framed, eq) = message-parts p ps hp in
    let (size', rest', sized', framed', eq') = message-parts q qs hq in
    let sizes : (length (encode p) ≡ length (encode q)) × (encode p ++ rest ≡ encode q ++ rest') =
      to_bytes-cancel _ _ _ _ sized sized'
        ((sym (append_assoc size _ _)) ∙ eq ∙ h ∙ sym eq' ∙ append_assoc size' _ _) in
    let texts : (encode p ≡ encode q) × (rest ≡ rest') = append_cancel _ _ _ _ sizes.0 sizes.1 in
    ap₂ (λ a b. a ∷ b) (encode-injective p q texts.0)
      (message-injective ps qs (omega arith) framed framed' texts.1)

-- A bucket lies below BUCKET_COUNT.
pub stable_bucket-lt :
    (rt : Runtime) (n p e f s t : String) {b : ℕ}
    → stable_bucket rt n p e f s t ≡ ok b
    → b < bucket_count
unfolding stable_bucket
stable_bucket-lt rt n p e f s t h =
    let (input, _, eq) = >>=-eq-ok (message (n ∷ p ∷ e ∷ f ∷ s ∷ t ∷ [])) _ h in ground arith
