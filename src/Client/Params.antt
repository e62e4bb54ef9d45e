-- ===== src/Client/Params.antt =====
-- The query parameters of a request.
use webalytics.Common.{
  ℕ, String, Bool, true, false, not, ◌&&◌, Option, none, some, List, [], ◌∷◌, ◌++◌, ◌==◌, ◌≡◌, refl,
  ap, ◌∙◌, arith, All,
}
use webalytics.Client.Types.{
  FilterName, hostnames, paths, devices, countries, referrer_hosts, utm_sources, environments,
  releases, filter_key, Filters, TimeWindow,
}
use webalytics.Client.Query.{Calendar, lookup, filter_entries, filters_to_qs, join, window_parts}
use webalytics.Client.Calls.{
  Query, filters_of, own_parts, parts, to_qs, realtime, summary, timeseries, breakdown, web_vitals,
}
use webalytics.Client.Server.{parse_filters}
use webalytics.Client.Objects.{
  shown, IsAbsent, HasDistinctKeys, lookup-search_params, put-IsAbsent, spread-HasDistinctKeys,
  lookup-spread_absent,
}

-- A name that no filter has.
abbrev IsForeign : String → Type 0
IsForeign j = (n : FilterName) → (filter_key n == j) ≡ false

filter_entries-IsAbsent :
    (j : String) (f : Filters) (out : List (String × Option String))
    → IsForeign j
    → IsAbsent j out
    → IsAbsent j (filter_entries f out)
unfolding filter_entries
filter_entries-IsAbsent j [] out n h = h
filter_entries-IsAbsent j ((k, []) ∷ f) out n h = filter_entries-IsAbsent j f out n h
filter_entries-IsAbsent j ((k, v ∷ vs) ∷ f) out n h =
    filter_entries-IsAbsent j f _ n
      (put-IsAbsent j (filter_key k) (some (join (v ∷ vs))) out (n k) h)

filters_to_qs-IsAbsent :
    (j : String) (f : Option Filters) → IsForeign j → IsAbsent j (filters_to_qs f)
unfolding filters_to_qs
filters_to_qs-IsAbsent j none n = tt
filters_to_qs-IsAbsent j (some f) n = filter_entries-IsAbsent j f [] n tt

-- No filter has the name `j`, and no property of `o` has it.
unfoldable pub is_unread : String → List (String × Option String) → Bool
is_unread j [] =
    not (filter_key hostnames == j)
    && not (filter_key paths == j)
    && not (filter_key devices == j)
    && not (filter_key countries == j)
    && not (filter_key referrer_hosts == j)
    && not (filter_key utm_sources == j)
    && not (filter_key environments == j)
    && not (filter_key releases == j)
is_unread j ((k, v) ∷ o) = not (k == j) && is_unread j o

is_unread→IsForeign :
    (j : String) (o : List (String × Option String)) → is_unread j o ≡ true → IsForeign j
unfolding is_unread
is_unread→IsForeign j ((k, v) ∷ o) h n = is_unread→IsForeign j o (ground arith) n
is_unread→IsForeign j [] h hostnames = ground arith
is_unread→IsForeign j [] h paths = ground arith
is_unread→IsForeign j [] h devices = ground arith
is_unread→IsForeign j [] h countries = ground arith
is_unread→IsForeign j [] h referrer_hosts = ground arith
is_unread→IsForeign j [] h utm_sources = ground arith
is_unread→IsForeign j [] h environments = ground arith
is_unread→IsForeign j [] h releases = ground arith

is_unread→IsAbsent :
    (j : String) (o : List (String × Option String)) → is_unread j o ≡ true → IsAbsent j o
unfolding is_unread
is_unread→IsAbsent j [] h = tt
is_unread→IsAbsent j ((k, v) ∷ o) h = (ground arith, is_unread→IsAbsent j o (ground arith))

all_unread : List String → List (String × Option String) → Bool
all_unread [] o = true
all_unread (k ∷ ks) o = is_unread k o && all_unread ks o

module _ (C : Calendar) (decimal : ℕ → String) where
  unfoldable pub base_parts : TimeWindow → Query C → List (String × Option String)
  base_parts w q = window_parts w ++ own_parts C decimal q

  base_keys : (w : TimeWindow) (q : Query C) → HasDistinctKeys (base_parts w q)
  unfolding base_parts
  base_keys w (realtime site) = ground arith
  base_keys w (summary x site f) = ground arith
  base_keys w (timeseries x m i site f) = ground arith
  base_keys w (breakdown x d m l o site f) = ground arith
  base_keys w (web_vitals x g site f) = ground arith

  -- A query string holds exactly the properties of its object that are defined and not empty.
  to_qs_lem :
      (w : TimeWindow) (q : Query C) (j : String)
      → lookup j (to_qs C decimal w q) ≡ shown (lookup j (parts C decimal w q))
  unfolding to_qs parts lookup base_parts
  to_qs_lem w q j = lookup-search_params j _ [] (spread-HasDistinctKeys _ _ (base_keys w q)) refl

  unfiltered :
      (w : TimeWindow) (q : Query C) (j : String)
      → IsForeign j
      → lookup j (to_qs C decimal w q) ≡ shown (lookup j (base_parts w q))
  unfolding parts base_parts
  unfiltered w q j n =
      to_qs_lem w q j
      ∙ ap shown (lookup-spread_absent j _ _ (filters_to_qs-IsAbsent j (filters_of C q) n))

  -- A property that no filter is named like reads as the query set it.
  pub sent :
      (w : TimeWindow) (q : Query C) (j : String)
      → is_unread j [] ≡ true
      → lookup j (to_qs C decimal w q) ≡ shown (lookup j (base_parts w q))
  sent w q j h = unfiltered w q j (is_unread→IsForeign j [] h)

  -- Whatever filters a query has, its time window is in its query string as it was given.
  pub window_sent :
      (w : TimeWindow) (q : Query C)
      → (lookup "from" (to_qs C decimal w q) ≡ shown (some (some w.from)))
        × (lookup "to" (to_qs C decimal w q) ≡ shown (some (some w.to)))
  unfolding base_parts lookup is_unread
  window_sent w q = (
    unfiltered w q "from" (is_unread→IsForeign "from" [] refl),
    unfiltered w q "to" (is_unread→IsForeign "to" [] refl),
  )

  lookup_absent :
      (j : String) (o : List (String × Option String)) → IsAbsent j o → lookup j o ≡ none
  unfolding lookup
  lookup_absent j [] h = refl
  lookup_absent j ((k, v) ∷ o) (n, h) = rw n (lookup_absent j o h)

  All-unread→none :
      (w : TimeWindow) (q : Query C) (ks : List String)
      → all_unread ks (base_parts w q) ≡ true
      → All (λ k. lookup k (to_qs C decimal w q) ≡ none) ks
  unfolding all_unread
  All-unread→none w q [] h = tt
  All-unread→none w q (k ∷ ks) h =
      let here : is_unread k (base_parts w q) ≡ true = ground arith in
      (
        unfiltered w q k (is_unread→IsForeign k (base_parts w q) here)
            ∙ ap shown (lookup_absent k _ (is_unread→IsAbsent k (base_parts w q) here)),
        All-unread→none w q ks (ground arith),
      )

  -- None of the names by which the server filters occurs in a query string of the client, whatever
  -- filters the query has.
  pub filters_unread :
      (w : TimeWindow) (q : Query C)
      → All (λ k. lookup k (to_qs C decimal w q) ≡ none) parse_filters
  unfolding all_unread is_unread base_parts
  filters_unread w (realtime site) = All-unread→none w _ parse_filters refl
  filters_unread w (summary x site f) = All-unread→none w _ parse_filters refl
  filters_unread w (timeseries x m i site f) = All-unread→none w _ parse_filters refl
  filters_unread w (breakdown x d m l o site f) = All-unread→none w _ parse_filters refl
  filters_unread w (web_vitals x g site f) = All-unread→none w _ parse_filters refl
