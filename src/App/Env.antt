-- ===== src/App/Env.antt =====
-- apps/dashboard-next/lib/env.ts: the lookup of a setting in the environment, and then in the seed
-- file. The file is a list of lines; `none` where it cannot be read. `trim` is JavaScript's.
use Prim.Native.Char.{code}
use webalytics.Common.{
  String, true, ◌&&◌, Option, none, some, List, [], ◌∷◌, ◌==◌, ◌+++◌, ◌≡◌, refl, sym, ap, ◌∙◌,
  if◌then◌else◌, ◌=ℕ◌, truthy, arith, inl, inr, Option-cases, Bool-cases,
}
use webalytics.Client.Core.{Result, ok, throw, http}

-- The texts before and after the first "=".
unfoldable pub split_eq : String → Option (String × String)
split_eq String.[] = none
split_eq (String.◌∷◌ c s) =
    let rest = split_eq s in
    if code c =ℕ b'='
    then some ("", s)
    else elim rest [ none ↦ none | some kv ↦ some (String.◌∷◌ c kv.0, kv.1) ]

-- The environment of the process, the seed file and `trim`.
pub record Sources : Type 0 where
  pub env : String → Option String
  pub seed_file : Option (List String)
  pub trim : String → String

module _ (p : Sources) where
  unfoldable pub seed_line : String → String → Option String
  seed_line name line = elim (split_eq line) [
    | none ↦ none
    | some kv ↦ if (p.trim kv.0 == name) && truthy (p.trim kv.1) then some (p.trim kv.1) else none
  ]

  abbrev or_else : Option String → Option String → Option String
  or_else none b = b
  or_else (some a) b = some a

  unfoldable pub from_lines : String → List String → Option String
  unfolding seed_line
  from_lines name [] = none
  from_lines name (line ∷ lines) = or_else (seed_line name line) (from_lines name lines)

  unfoldable pub from_seed_file : String → Option String
  unfolding from_lines
  from_seed_file name = elim p.seed_file [ none ↦ none | some lines ↦ from_lines name lines ]

  abbrev pub truthy_or_none : Option String → Option String
  truthy_or_none none = none
  truthy_or_none (some v) = if truthy v then some v else none

  -- The loop `for (const k of ordered)` over one of the two sources.
  unfoldable pub first_of : (String → Option String) → List String → Option String
  first_of look [] = none
  first_of look (k ∷ ordered) = or_else (truthy_or_none (look k)) (first_of look ordered)

  unfoldable pub read : String → List String → Option String
  unfolding first_of from_seed_file
  read name aliases =
      or_else (first_of p.env (name ∷ aliases)) (first_of from_seed_file (name ∷ aliases))

  abbrev or_fail : String → Option String → Result String
  or_fail name none =
      throw (
        http (name +++ " is required but not set. Run `make seed` to populate deploy/.seeded.env."))
  or_fail name (some v) = ok v

  unfoldable pub required : String → List String → Result String
  unfolding read
  required name aliases = or_fail name (read name aliases)

  unfoldable pub api_host : Result String
  unfolding required
  api_host = required "WEBALYTICS_API_HOST" []

  unfoldable pub api_token : Result String
  unfolding required
  api_token = required "WEBALYTICS_API_TOKEN" ("WEBALYTICS_TOKEN" ∷ [])

  unfoldable pub site_uuid : Result String
  unfolding required
  site_uuid = required "WEBALYTICS_SITE_UUID" ("WEBALYTICS_ORG_SITE_UUID" ∷ [])

  or_else-truthy :
      (a b : Option String) (v : String)
      → ((w : String) → b ≡ some w → truthy w ≡ true)
      → or_else (truthy_or_none a) b ≡ some v
      → truthy v ≡ true
  or_else-truthy none b v ih h = ih v h
  or_else-truthy (some a) b v ih h = elim (Bool-cases (truthy a)) [
    | inl full ↦ ground arith
    | inr empty ↦ ground (arith, ih v)
  ]

  first_of-truthy :
      (look : String → Option String) (ks : List String) (v : String)
      → first_of look ks ≡ some v
      → truthy v ≡ true
  unfolding first_of
  first_of-truthy look [] v h = ground arith
  first_of-truthy look (k ∷ ks) v h =
      or_else-truthy (look k) (first_of look ks) v (first_of-truthy look ks) h

  read-truthy :
      (name : String) (aliases : List String) (v : String)
      → read name aliases ≡ some v
      → truthy v ≡ true
  unfolding read
  read-truthy name aliases v h = elim (Option-cases (first_of p.env (name ∷ aliases))) [
    | inl missing ↦
        first_of-truthy from_seed_file (name ∷ aliases) v
          (ap (λ o. or_else o (first_of from_seed_file (name ∷ aliases))) (sym missing) ∙ h)
    | inr (w, found) ↦
        first_of-truthy p.env (name ∷ aliases) v
          (found ∙ ap (λ o. or_else o (first_of from_seed_file (name ∷ aliases))) (sym found) ∙ h)
  ]

  -- A required setting that is returned is never the empty text.
  pub required_nonempty :
      (name : String) (aliases : List String) (v : String)
      → required name aliases ≡ ok v
      → truthy v ≡ true
  unfolding required
  required_nonempty name aliases v h = elim (Option-cases (read name aliases)) [
    | inl missing ↦ ground arith
    | inr (w, found) ↦ ground (arith, read-truthy name aliases w found)
  ]

  -- A setting that the process's environment has under its own name is what is returned, whatever
  -- its aliases and the seed file say.
  pub env_wins :
      (name : String) (aliases : List String) (v : String)
      → p.env name ≡ some v
      → truthy v ≡ true
      → required name aliases ≡ ok v
  unfolding required read first_of
  env_wins name aliases v found h =
      let full : truthy_or_none (some v) ≡ some v = rw h refl in
      let rest = first_of p.env aliases in
      let seed = first_of from_seed_file (name ∷ aliases) in
      ap (λ o. or_fail name (or_else (or_else (truthy_or_none o) rest) seed)) found
      ∙ ap (λ o. or_fail name (or_else (or_else o rest) seed)) full
