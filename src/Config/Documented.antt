-- ===== src/Config/Documented.antt =====
-- What viper documents of the calls that config.go makes.
use amqplex.Base.{
  ℕ, ◌-◌, ◌≡◌, ◌&&◌, Bool, true, false, List, [], ◌∷◌, ◌++◌, Option, none, some, map, leb, bytes_eq,
  if◌then◌else◌,
}
use amqplex.Config.{
  Call, default_string, default_int, env_prefix, automatic_env, env_key_replacer, Viper,
}

-- The environment's variables, and the values in a configuration file, where they are set. What is in
-- the file depends on the calls that say which one is read.
pub record Environment : Type 0 where
  pub string : List ℕ → Option (List ℕ)
  pub int : List ℕ → Option ℕ
  pub bool : List ℕ → Option Bool

pub record ConfigFile : Type 0 where
  pub string : List Call → List ℕ → Option (List ℕ)
  pub int : List Call → List ℕ → Option ℕ
  pub bool : List Call → List ℕ → Option Bool

-- The default that was set last for a key, or `before`.
abbrev pub last_string : List Call → List ℕ → List ℕ → List ℕ
last_string [] key before = before
last_string (c ∷ h) key before =
    last_string h key
      (elim c [ default_string k value ↦ if bytes_eq k key then value else before | _ ↦ before ])

abbrev pub last_int : List Call → List ℕ → ℕ → ℕ
last_int [] key before = before
last_int (c ∷ h) key before =
    last_int h key
      (elim c [ default_int k value ↦ if bytes_eq k key then value else before | _ ↦ before ])

abbrev pub is_automatic : List Call → Bool
is_automatic [] = false
is_automatic (c ∷ h) = elim c [ automatic_env ↦ true | _ ↦ is_automatic h ]

abbrev to_upper : ℕ → ℕ
to_upper b = if leb b'a' b && leb b b'z' then b - 32 else b

-- The text with each piece `old` of one byte replaced.
abbrev replace : List ℕ → List ℕ → List ℕ → List ℕ
replace old new [] = []
replace old new (b ∷ bs) =
    let rest = replace old new bs in if bytes_eq (b ∷ []) old then new ++ rest else b ∷ rest

-- The key in upper case behind the prefix and an underscore, and then the replacer on it.
abbrev prefixed : List Call → List ℕ → List ℕ
prefixed [] key = map to_upper key
prefixed (c ∷ h) key = elim c [
  | env_prefix p ↦ map to_upper (p ++ (b'_' ∷ key))
  | _ ↦ prefixed h key
]

abbrev replaced : List Call → List ℕ → List ℕ
replaced [] name = name
replaced (c ∷ h) name = elim c [
  | env_key_replacer old new ↦ replace old new name
  | _ ↦ replaced h name
]

abbrev pub variable : List Call → List ℕ → List ℕ
variable h key = replaced h (prefixed h key)

abbrev pub from_env {ℓ} : {A : Type ℓ} → List Call → (List ℕ → Option A) → List ℕ → Option A
from_env h env key = if is_automatic h then env (variable h key) else none

-- The first that is set: in the environment, in the file, or by default.
abbrev pub choose {ℓ} : {A : Type ℓ} → Option A → Option A → A → A
choose (some v) file otherwise = v
choose none (some v) otherwise = v
choose none none otherwise = otherwise

-- The precedence of the sources, and the names of the variables.
pub record IsDocumented (v : Viper) (env : Environment) (file : ConfigFile) : Type 0 where
  pub strings :
      (h : List Call) (key : List ℕ)
      → v.get_string h key
        ≡ choose (from_env h env.string key) (file.string h key) (last_string h key [])
  pub ints :
      (h : List Call) (key : List ℕ)
      → v.get_int h key ≡ choose (from_env h env.int key) (file.int h key) (last_int h key 0)
  pub bools :
      (h : List Call) (key : List ℕ)
      → v.get_bool h key ≡ choose (from_env h env.bool key) (file.bool h key) false
