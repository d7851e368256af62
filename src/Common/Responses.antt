-- ===== src/Common/Responses.antt =====
-- backend/src/common/idempotency/idempotency.service.ts: the two patterns and assertSafeResponse.
use Prim.Native.Char.{code}
use swar.Prelude.{
  ℕ, Bool, true, false, List, [], ◌∷◌, ◌&&◌, ◌||◌, ◌+◌, not, String, leb, ◌==◌, if◌then◌else◌, any,
  map,
}
use swar.Risk.Json.{
  Json, undefined, null, boolean, num, str, arr, obj, Items, nil, cons, Fields, end, field,
  text_length,
}

abbrev between : ℕ → ℕ → ℕ → Bool
between low high n = leb low n && leb n high

abbrev is_alphanumeric : ℕ → Bool
is_alphanumeric n = between 65 90 n || (between 97 122 n || between 48 57 n)

-- A letter, a digit, or one of `._:-`
abbrev is_key_char : ℕ → Bool
is_key_char n = is_alphanumeric n || (n == 46 || (n == 95 || (n == 58 || n == 45)))

abbrev codes : String → List ℕ
codes String.[] = []
codes (String.◌∷◌ c s) = code c ∷ codes s

abbrev every_key_char : List ℕ → Bool
every_key_char [] = true
every_key_char (n ∷ ns) = is_key_char n && every_key_char ns

-- keyPattern
unfoldable pub is_key : String → Bool
is_key String.[] = false
is_key (String.◌∷◌ c s) =
    is_alphanumeric (code c)
    && (every_key_char (codes s) && (leb 7 (text_length s) && leb (text_length s) 127))

-- Case is folded as for a pattern with `iu`, where U+017F and U+212A stand for `s` and `k`.
abbrev folded : ℕ → ℕ
folded n =
    if between 65 90 n then n + 32 else if n == 383 then 115 else if n == 8490 then 107 else n

abbrev starts : List ℕ → List ℕ → Bool
starts [] ns = true
starts (w ∷ ws) [] = false
starts (w ∷ ws) (n ∷ ns) = w == n && starts ws ns

abbrev contains : List ℕ → List ℕ → Bool
contains word [] = starts word []
contains word (n ∷ ns) = starts word (n ∷ ns) || contains word ns

pub sensitive_words : List String
sensitive_words =
    "password" ∷ "token" ∷ "secret" ∷ "authorization" ∷ "cookie" ∷ "embedding" ∷ "audio"
    ∷ "waveform" ∷ "pcm" ∷ "voiceprint" ∷ "ciphertext" ∷ []

-- sensitiveResponseField
unfoldable pub is_sensitive : String → Bool
unfolding sensitive_words
is_sensitive name = any (λ w. contains (codes w) (map folded (codes name))) sensitive_words

-- assertSafeResponse; a value of JSON has no cycle.
unfoldable mutual
  unfolding is_sensitive

  pub is_safe : {N : Type 0} → Json N → Bool
  is_safe undefined = true
  is_safe null = true
  is_safe (boolean b) = true
  is_safe (num n) = true
  is_safe (str s) = true
  is_safe (arr xs) = are_safe xs
  is_safe (obj fs) = fields_safe fs

  pub are_safe : {N : Type 0} → Items N → Bool
  are_safe nil = true
  are_safe (cons x xs) = is_safe x && are_safe xs

  pub fields_safe : {N : Type 0} → Fields N → Bool
  fields_safe end = true
  fields_safe (field name v fs) = not (is_sensitive name) && (is_safe v && fields_safe fs)
