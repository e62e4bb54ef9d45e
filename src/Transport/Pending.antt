-- ===== src/Transport/Pending.antt =====
-- What the promise of `flush()` waits for.
use webalytics.Common.{
  ℕ, suc, ◌<◌, String, Bool, true, false, not, ◌&&◌, List, [], ◌∷◌, ◌++◌, ◌≡◌, refl, arith, All,
  Bool-cases, inl, inr, if◌then◌else◌, length, ◌=ℕ◌, All-append, All-map, drop, drop_all,
  drop-append, sym, ap, ◌∙◌, append-nil, append_assoc, if_elim,
}
use webalytics.Transport.Core.{
  BeaconResult, queued, refused, threw, Call, beacon, fetch, Net, Browser, created, remove, settle,
  track_fetch, post_fetch, after_beacon, post, member, flush, flushed,
}

-- What happens to a transport: one event is posted, or a promise settles.
pub data NetEvent : Type 0 where
  posts : (url body : String) (unload : Bool) → NetEvent
  settles : ℕ → NetEvent

member-append :
    (p : ℕ) (xs ys : List ℕ) → member p (xs ++ ys) ≡ (if member p xs then true else member p ys)
unfolding member
member-append p [] ys = refl
member-append p (x ∷ xs) ys = ground (arith, member-append p xs ys)

member-remove : (p q : ℕ) (xs : List ℕ) → member p (remove q xs) ≡ (member p xs && not (p =ℕ q))
unfolding member remove
member-remove p q [] = refl
member-remove p q (x ∷ xs) = ground (arith, member-remove p q xs)

member_self : (xs : List ℕ) → All (λ p. member p xs ≡ true) xs
unfolding member
member_self [] = tt
member_self (x ∷ xs) = (ground arith, All-map (λ p h. ground arith) xs (member_self xs))

remove-All : (P : ℕ → Type 0) (q : ℕ) (xs : List ℕ) → All P xs → All P (remove q xs)
unfolding remove
remove-All P q [] h = tt
remove-All P q (x ∷ xs) (p, h) = elim (Bool-cases (q =ℕ x)) [
  | inl e ↦ rw e (remove-All P q xs h)
  | inr e ↦ rw e (p, remove-All P q xs h)
]

-- Whether a promise settles among the events.
pub settled_in : ℕ → List NetEvent → Bool
settled_in p [] = false
settled_in p (posts url body unload ∷ es) = settled_in p es
settled_in p (settles q ∷ es) = if p =ℕ q then true else settled_in p es

pub all_settled_in : List ℕ → List NetEvent → Bool
all_settled_in [] es = true
all_settled_in (p ∷ ps) es = settled_in p es && all_settled_in ps es

-- The promises of the calls of `fetch`.
unfoldable pub launched : List Call → List ℕ
launched [] = []
launched (beacon url body r ∷ calls) = launched calls
launched (fetch url body p ∷ calls) = p ∷ launched calls

-- All but one promise.
unfoldable pub others : ℕ → List ℕ → List ℕ
others p [] = []
others p (q ∷ qs) = let rest = others p qs in if p =ℕ q then rest else q ∷ rest

others-remove : (p : ℕ) (qs : List ℕ) → others p qs ≡ remove p qs
unfolding others remove
others-remove p [] = refl
others-remove p (q ∷ qs) = rw (others-remove p qs) refl

module _ (b : Browser) where
  react : NetEvent → Net → Net
  react (posts url body unload) n = post b url unload body n
  react (settles p) n = settle p n

  pub react_all : List NetEvent → Net → Net
  react_all [] n = n
  react_all (e ∷ es) n = react_all es (react e n)

  -- A name that is in use before a post keeps its standing.
  post_fetch-old :
      (url body : String) (n : Net) (p : ℕ)
      → p < n.next
      → (member p (post_fetch b url body n).pending ≡ member p n.pending)
        × (p < (post_fetch b url body n).next)
  unfolding post_fetch track_fetch member
  post_fetch-old url body n p h =
      (ground (arith, member-append p n.pending (n.next ∷ [])), ground arith)

  after_beacon-old :
      (url body : String) (r : BeaconResult) (n : Net) (p : ℕ)
      → p < n.next
      → (member p (after_beacon b url body r n).pending ≡ member p n.pending)
        × (p < (after_beacon b url body r n).next)
  unfolding after_beacon
  after_beacon-old url body queued n p h = (refl, h)
  after_beacon-old url body refused n p h = (refl, h)
  after_beacon-old url body threw n p h = post_fetch-old url body _ p h

  post-old :
      (url : String) (unload : Bool) (body : String) (n : Net) (p : ℕ)
      → p < n.next
      → (member p (post b url unload body n).pending ≡ member p n.pending)
        × (p < (post b url unload body n).next)
  unfolding post
  post-old url unload body n p h =
      let old = after_beacon-old url body (b.send_beacon (length n.calls)) n p h in
      let old' = post_fetch-old url body n p h in (ground arith, ground arith)

  member-react_all :
      (es : List NetEvent) (n : Net) (p : ℕ)
      → p < n.next
      → member p (react_all es n).pending ≡ (member p n.pending && not (settled_in p es))
  unfolding react_all react settled_in settle
  member-react_all [] n p h = ground arith
  member-react_all (posts url body unload ∷ es) n p h =
      let (same, later) = post-old url unload body n p h in
      ground (arith, member-react_all es (post b url unload body n) p later)
  member-react_all (settles q ∷ es) n p h = ground (
    arith,
    member-react_all es (record n { pending = remove q n.pending }) p h,
    member-remove p q n.pending,
  )

  flushed-react_all :
      (es : List NetEvent) (n : Net) (waiting : List ℕ)
      → All (λ p. p < n.next) waiting
      → All (λ p. member p n.pending ≡ true) waiting
      → flushed waiting (react_all es n) ≡ all_settled_in waiting es
  unfolding flushed all_settled_in
  flushed-react_all es n [] h k = refl
  flushed-react_all es n (p ∷ waiting) (l, h) (m, k) =
      ground (arith, member-react_all es n p l, flushed-react_all es n waiting h k)

  -- Promises in flight have names that no later request gets.
  abbrev pub IsFresh : Net → Type 0
  IsFresh n = All (λ p. p < n.next) n.pending

  post_fetch-IsFresh : (url body : String) (n : Net) → IsFresh n → IsFresh (post_fetch b url body n)
  unfolding post_fetch track_fetch
  post_fetch-IsFresh url body n h = elim (Bool-cases b.has_fetch) [
    | inl e ↦ rw e (
        All-append (λ p. p < suc n.next) n.pending _ (All-map (λ p k. omega arith) n.pending h)
          (omega arith, tt))
    | inr e ↦ rw e h
  ]

  after_beacon-IsFresh :
      (url body : String) (r : BeaconResult) (n : Net)
      → IsFresh n
      → IsFresh (after_beacon b url body r n)
  unfolding after_beacon
  after_beacon-IsFresh url body queued n h = h
  after_beacon-IsFresh url body refused n h = h
  after_beacon-IsFresh url body threw n h = post_fetch-IsFresh url body _ h

  react-IsFresh : (e : NetEvent) (n : Net) → IsFresh n → IsFresh (react e n)
  unfolding react settle post
  react-IsFresh (posts url body unload) n h = elim (Bool-cases (unload && b.has_beacon)) [
    | inl e ↦ rw e (after_beacon-IsFresh url body (b.send_beacon (length n.calls)) n h)
    | inr e ↦ rw e (post_fetch-IsFresh url body n h)
  ]
  react-IsFresh (settles q) n h = remove-All _ q n.pending h

  react_all-IsFresh : (es : List NetEvent) (n : Net) → IsFresh n → IsFresh (react_all es n)
  unfolding react_all
  react_all-IsFresh [] n h = h
  react_all-IsFresh (e ∷ es) n h = react_all-IsFresh es (react e n) (react-IsFresh e n h)

  -- The promises in flight after some events: those of the calls of `fetch` that the events make, from
  -- the moment of the call until they settle.
  unfoldable pub in_flight : List NetEvent → Net → List ℕ → List ℕ
  in_flight [] n ps = ps
  in_flight (settles p ∷ es) n ps = in_flight es (settle p n) (others p ps)
  in_flight (posts url body unload ∷ es) n ps =
      let m = post b url unload body n in
      in_flight es m (ps ++ launched (drop (length n.calls) m.calls))

  -- A post adds to the promises that `flush` waits for those of the calls that it makes.
  abbrev Launches : Net → Net → Type 0
  Launches n m = m.pending ≡ n.pending ++ launched (drop (length n.calls) m.calls)

  post_fetch-Launches : (url body : String) (n : Net) → Launches n (post_fetch b url body n)
  unfolding post_fetch track_fetch launched
  post_fetch-Launches url body n = elim (Bool-cases b.has_fetch) [
    | inl e ↦ rw (e, drop-append n.calls (fetch url body n.next ∷ [])) refl
    | inr e ↦ rw (e, drop_all n.calls) (sym (append-nil n.pending))
  ]

  after_beacon-Launches :
      (url body : String) (r : BeaconResult) (n : Net) → Launches n (after_beacon b url body r n)
  unfolding after_beacon launched post_fetch track_fetch
  after_beacon-Launches url body queued n =
      rw (drop-append n.calls (beacon url body queued ∷ [])) (sym (append-nil n.pending))
  after_beacon-Launches url body refused n =
      rw (drop-append n.calls (beacon url body refused ∷ [])) (sym (append-nil n.pending))
  after_beacon-Launches url body threw n = elim (Bool-cases b.has_fetch) [
    | inl e ↦
        rw
          (
            e,
            append_assoc n.calls (beacon url body threw ∷ []) (fetch url body n.next ∷ []),
            drop-append n.calls (beacon url body threw ∷ fetch url body n.next ∷ []),
          )
          refl
    | inr e ↦ rw (e, drop-append n.calls (beacon url body threw ∷ [])) (sym (append-nil n.pending))
  ]

  post-Launches :
      (url : String) (unload : Bool) (body : String) (n : Net)
      → Launches n (post b url unload body n)
  unfolding post
  post-Launches url unload body n =
      if_elim (Launches n) (unload && b.has_beacon)
        (λ h. after_beacon-Launches url body (b.send_beacon (length n.calls)) n)
        (λ h. post_fetch-Launches url body n)

  in_flight_lem :
      (es : List NetEvent) (n : Net) (ps : List ℕ)
      → ps ≡ n.pending
      → in_flight es n ps ≡ (react_all es n).pending
  unfolding in_flight react_all react settle
  in_flight_lem [] n ps h = h
  in_flight_lem (settles p ∷ es) n ps h =
      in_flight_lem es (settle p n) (others p ps) (others-remove p ps ∙ ap (remove p) h)
  in_flight_lem (posts url body unload ∷ es) n ps h =
      let m = post b url unload body n in
      in_flight_lem es m (ps ++ launched (drop (length n.calls) m.calls)) (
        ap (λ qs. qs ++ launched (drop (length n.calls) m.calls)) h
        ∙ sym (post-Launches url unload body n))

  -- In any state a transport can reach, the promise of `flush()` is resolved exactly when each
  -- promise of a `fetch` that was made before the call and had not settled by then has settled;
  -- requests made afterwards do not delay it.
  pub flush_waits :
      (before after : List NetEvent)
      → let n = react_all before created in
        flushed (flush n) (react_all after n) ≡ all_settled_in (in_flight before created []) after
  unfolding flush
  flush_waits before after =
      let n = react_all before created in
      flushed-react_all after n n.pending (react_all-IsFresh before created (unfold created in tt))
        (member_self n.pending)
      ∙ ap (λ ps. all_settled_in ps after)
          (sym (in_flight_lem before created [] (unfold created in refl)))
