-- ===== src/Util/Config.antt =====
-- How the constructors of the services read what has to be configured.
use operator_registry_contro.Prelude.{
  Bool, true, false, not, Option, none, some, ◌∷◌, [], ◌++◌, Text, text, is_empty, Result, ok, err,
}

-- `if (!value) throw new Error(name + ' is not set!')`, and what follows
abbrev pub given : {A : Type 0} → Text → Option Text → (Text → Result Text A) → Result Text A
given name none rest = err (name ++ text " is not set!")
given name (some []) rest = err (name ++ text " is not set!")
given name (some (c ∷ value)) rest = rest (c ∷ value)

abbrev pub is_set : Option Text → Bool
is_set none = false
is_set (some value) = not (is_empty value)

abbrev pub is_returned : {A : Type 0} → Result Text A → Bool
is_returned (ok a) = true
is_returned (err message) = false
