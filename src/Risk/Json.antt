-- ===== src/Risk/Json.antt =====
-- The values that a policy document is made of, as `JSON.parse` gives them, and what the parser
-- asks of them.
use Prim.Native.Nat.{ℕ, ◌+◌}
use Prim.Native.Char.{code}
use Prim.Native.String.{String, ◌++◌}
use mathlib.Core.List.{List}
use swar.Prelude.{Bool, true, false, ltb, ◌===◌, string_eq, if◌then◌else◌}

mutual
  pub data Json (N : Type 0) : Type 0 where
    undefined null : Json N
    boolean : Bool → Json N
    num : N → Json N
    str : String → Json N
    arr : Items N → Json N
    obj : Fields N → Json N

  pub data Items (N : Type 0) : Type 0 where
    nil : Items N
    cons : Json N → Items N → Items N

  pub data Fields (N : Type 0) : Type 0 where
    end : Fields N
    field : String → Json N → Fields N → Fields N

module _ {N : Type 0} where
  -- `Object.keys`
  abbrev pub keys : Fields N → List String
  keys end = List.[]
  keys (field k v fs) = List.◌∷◌ k (keys fs)

  -- `value.key`
  abbrev pub get : String → Fields N → Json N
  get k end = undefined
  get k (field j v fs) = if j === k then v else get k fs

-- The length of a text counts code units of UTF-16.
abbrev pub text_length : String → ℕ
text_length String.[] = 0
text_length (String.◌∷◌ c s) = (if ltb 65535 (code c) then 2 else 1) + text_length s

-- In an array `null` and `undefined` are joined as empty texts.
abbrev pub joined : {N : Type 0} → Json N → String → String
joined null s = ""
joined undefined s = ""
joined _ s = s

-- `String(value)`
unfoldable mutual
  pub coerce : {N : Type 0} → (N → String) → Json N → String
  coerce show undefined = "undefined"
  coerce show null = "null"
  coerce show (boolean true) = "true"
  coerce show (boolean false) = "false"
  coerce show (num n) = show n
  coerce show (str s) = s
  coerce show (arr xs) = coerce_items show xs
  coerce show (obj fs) = "[object Object]"

  pub coerce_items : {N : Type 0} → (N → String) → Items N → String
  coerce_items show nil = ""
  coerce_items show (cons x xs) = joined x (coerce show x) ++ coerce_rest show xs

  pub coerce_rest : {N : Type 0} → (N → String) → Items N → String
  coerce_rest show nil = ""
  coerce_rest show (cons x xs) = "," ++ joined x (coerce show x) ++ coerce_rest show xs
