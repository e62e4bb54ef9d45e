-- ===== src/Client/Objects.antt =====
-- JavaScript objects as lists of properties: what a property has after writing, spreading and
-- `toQS` of packages/dashboard-react/src/client.ts.
use webalytics.Common.{
  String, true, false, not, Option, none, some, List, [], ◌∷◌, ◌==◌, eq_iff, ◌≡◌, refl, ◌∙◌, arith,
  if◌then◌else◌, truthy, All, if_elim, subst, Bool-cases, inl, inr,
}
use webalytics.Client.Query.{put, spread, lookup, search_params}

module _ {ℓ} {V : Type ℓ} where
  lookup-put :
      (key j : String) (v : V) (o : List (String × V))
      → lookup j (put key v o) ≡ (if key == j then some v else lookup j o)
  unfolding lookup put
  lookup-put key j v [] = refl
  lookup-put key j v ((k, w) ∷ o) =
      ground (arith, eq_iff k key, eq_iff k j, eq_iff key j, lookup-put key j v o)

-- What a query string gives for a property: nothing if it is missing, undefined or empty.
abbrev pub shown : Option (Option String) → Option String
shown (some (some v)) = if truthy v then some v else none
shown _ = none

-- No property has this name.
abbrev pub IsAbsent {ℓ} : {V : Type ℓ} → String → List (String × V) → Type 0
IsAbsent j o = All (λ p. (p.0 == j) ≡ false) o

abbrev pub HasDistinctKeys {ℓ} : {V : Type ℓ} → List (String × V) → Type 0
HasDistinctKeys [] = Unit
HasDistinctKeys ((k, v) ∷ o) = IsAbsent k o × HasDistinctKeys o

search_params_absent :
    (j : String) (o : List (String × Option String)) (p : List (String × String))
    → IsAbsent j o
    → lookup j (search_params o p) ≡ lookup j p
unfolding search_params
search_params_absent j [] p h = refl
search_params_absent j ((k, none) ∷ o) p (_, h) = search_params_absent j o p h
search_params_absent j ((k, some v) ∷ o) p (n, h) =
    search_params_absent j o (if not (truthy v) then p else put k v p) h
    ∙ ground (arith, lookup-put k j v p)

IsAbsent-of_eq {ℓ} :
    {V : Type ℓ} (k j : String) (o : List (String × V))
    → (k == j) ≡ true
    → IsAbsent k o
    → IsAbsent j o
IsAbsent-of_eq k j o h a = subst (λ m. IsAbsent m o) ((eq_iff k j).0 h) a

-- Every property of the object of a query is in its query string, with its value, exactly if that
-- is defined and not empty.
pub lookup-search_params :
    (j : String) (o : List (String × Option String)) (p : List (String × String))
    → HasDistinctKeys o
    → lookup j p ≡ none
    → lookup j (search_params o p) ≡ shown (lookup j o)
unfolding search_params lookup
lookup-search_params j [] p d h = h
lookup-search_params j ((k, none) ∷ o) p (a, d) h = elim (Bool-cases (k == j)) [
  | inl e ↦ rw e (search_params_absent j o p (IsAbsent-of_eq k j o e a) ∙ h)
  | inr e ↦ rw e (lookup-search_params j o p d h)
]
lookup-search_params j ((k, some v) ∷ o) p (a, d) h =
    let p' : List (String × String) = if not (truthy v) then p else put k v p in
    elim (Bool-cases (k == j)) [
      | inl e ↦ rw e (
          search_params_absent j o p' (IsAbsent-of_eq k j o e a)
          ∙ ground (arith, lookup-put k j v p))
      | inr e ↦ rw e (lookup-search_params j o p' d (ground (arith, lookup-put k j v p)))
    ]

module _ {V : Type 0} where
  pub put-IsAbsent :
      (j k : String) (v : V) (o : List (String × V))
      → (k == j) ≡ false
      → IsAbsent j o
      → IsAbsent j (put k v o)
  unfolding put
  put-IsAbsent j k v [] n h = (n, tt)
  put-IsAbsent j k v ((i, w) ∷ o) n (m, h) =
      if_elim (IsAbsent j) (i == k) (λ _. (m, h)) (λ _. (m, put-IsAbsent j k v o n h))

  put-HasDistinctKeys :
      (k : String) (v : V) (o : List (String × V)) → HasDistinctKeys o → HasDistinctKeys (put k v o)
  unfolding put
  put-HasDistinctKeys k v [] d = (tt, tt)
  put-HasDistinctKeys k v ((i, w) ∷ o) (a, d) =
      if_elim HasDistinctKeys (i == k) (λ _. (a, d))
        (λ n. (
          put-IsAbsent i k v o (ground (arith, eq_iff i k, eq_iff k i)) a,
          put-HasDistinctKeys k v o d,
        ))

  pub spread-HasDistinctKeys :
      (o props : List (String × V)) → HasDistinctKeys o → HasDistinctKeys (spread o props)
  unfolding spread
  spread-HasDistinctKeys o [] d = d
  spread-HasDistinctKeys o ((k, v) ∷ props) d =
      spread-HasDistinctKeys (put k v o) props (put-HasDistinctKeys k v o d)

  spread-IsAbsent :
      (j : String) (o props : List (String × V))
      → IsAbsent j props
      → IsAbsent j o
      → IsAbsent j (spread o props)
  unfolding spread
  spread-IsAbsent j o [] n h = h
  spread-IsAbsent j o ((k, v) ∷ props) (m, n) h =
      spread-IsAbsent j (put k v o) props n (put-IsAbsent j k v o m h)

  pub lookup-spread_absent :
      (j : String) (o props : List (String × V))
      → IsAbsent j props
      → lookup j (spread o props) ≡ lookup j o
  unfolding spread
  lookup-spread_absent j o [] n = refl
  lookup-spread_absent j o ((k, v) ∷ props) (m, n) =
      lookup-spread_absent j (put k v o) props n ∙ ground (arith, lookup-put k j v o)
