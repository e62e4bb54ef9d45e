-- ===== src/Transport/Sending.antt =====
-- What `send` hands to the network, and what it loses.
use webalytics.Common.{
  ℕ, String, Bool, true, false, Option, none, some, List, [], ◌∷◌, ◌++◌, map, ◌+++◌, ◌≡◌, refl, sym,
  ap, ◌∙◌, arith, append_assoc, append-nil, length,
}
use webalytics.Transport.Core.{
  BeaconResult, queued, refused, threw, Call, beacon, fetch, Net, Browser, post_fetch, after_beacon,
  post, send_loop, send,
}

-- The requests that left the page or that the browser answered for: all calls but the beacons
-- that threw.
unfoldable pub requests : List Call → List (String × String)
requests [] = []
requests (beacon url body threw ∷ calls) = requests calls
requests (beacon url body r ∷ calls) = (url, body) ∷ requests calls
requests (fetch url body p ∷ calls) = (url, body) ∷ requests calls

-- The requests that the browser took on.
unfoldable pub accepted : List Call → List (String × String)
accepted [] = []
accepted (beacon url body queued ∷ calls) = (url, body) ∷ accepted calls
accepted (beacon url body r ∷ calls) = accepted calls
accepted (fetch url body p ∷ calls) = (url, body) ∷ accepted calls

-- The requests that the browser refused.
unfoldable pub refusals : List Call → List (String × String)
refusals [] = []
refusals (beacon url body refused ∷ calls) = (url, body) ∷ refusals calls
refusals (call ∷ calls) = refusals calls

pub requests-append : (cs ds : List Call) → requests (cs ++ ds) ≡ requests cs ++ requests ds
unfolding requests
requests-append [] ds = refl
requests-append (beacon url body queued ∷ cs) ds = rw (requests-append cs ds)
requests-append (beacon url body refused ∷ cs) ds = rw (requests-append cs ds)
requests-append (beacon url body threw ∷ cs) ds = requests-append cs ds
requests-append (fetch url body p ∷ cs) ds = rw (requests-append cs ds)

pub accepted-append : (cs ds : List Call) → accepted (cs ++ ds) ≡ accepted cs ++ accepted ds
unfolding accepted
accepted-append [] ds = refl
accepted-append (beacon url body queued ∷ cs) ds = rw (accepted-append cs ds)
accepted-append (beacon url body refused ∷ cs) ds = accepted-append cs ds
accepted-append (beacon url body threw ∷ cs) ds = accepted-append cs ds
accepted-append (fetch url body p ∷ cs) ds = rw (accepted-append cs ds)

module _ (b : Browser) where
  requests-post_fetch :
      (url body : String) (n : Net)
      → b.has_fetch ≡ true
      → requests (post_fetch b url body n).calls ≡ requests n.calls ++ (url, body) ∷ []
  unfolding post_fetch requests
  requests-post_fetch url body n h = rw h (requests-append n.calls _)

  requests-after_beacon :
      (url body : String) (r : BeaconResult) (n : Net)
      → b.has_fetch ≡ true
      → requests (after_beacon b url body r n).calls ≡ requests n.calls ++ (url, body) ∷ []
  unfolding after_beacon requests
  requests-after_beacon url body queued n h = requests-append n.calls _
  requests-after_beacon url body refused n h = requests-append n.calls _
  requests-after_beacon url body threw n h =
      requests-post_fetch url body _ h
      ∙ ap (λ l. l ++ (url, body) ∷ []) (requests-append n.calls _ ∙ append-nil _)

  requests-post :
      (url : String) (unload : Bool) (body : String) (n : Net)
      → b.has_fetch ≡ true
      → requests (post b url unload body n).calls ≡ requests n.calls ++ (url, body) ∷ []
  unfolding post
  requests-post url unload body n h = ground (
    arith,
    requests-post_fetch url body n,
    requests-after_beacon url body (b.send_beacon (length n.calls)) n,
  )

  accepted-post :
      (url : String) (body : String) (n : Net)
      → b.has_beacon ≡ true
      → b.send_beacon (length n.calls) ≡ refused
      → accepted (post b url true body n).calls ≡ accepted n.calls
  unfolding post after_beacon accepted
  accepted-post url body n h r = rw (h, r, after_beacon) (accepted-append n.calls _ ∙ append-nil _)

  module _ {E : Type 0} (stringify : E → Option String) where
    -- The bodies of events that all have one.
    abbrev pub Bodies : List E → List String → Type 0
    Bodies [] [] = Unit
    Bodies [] (_ ∷ _) = ⊥
    Bodies (_ ∷ _) [] = ⊥
    Bodies (e ∷ es) (body ∷ bodies) = (stringify e ≡ some body) × Bodies es bodies

    -- Each event becomes one request, in order, and nothing is thrown.
    abbrev pub Posts : String → List String → Net → Net × Bool → Type 0
    Posts url bodies n r =
        (requests r.0.calls ≡ requests n.calls ++ map (λ body. (url, body)) bodies) × (r.1 ≡ false)

    send_loop-Posts :
        (url : String) (unload : Bool) (events : List E) (bodies : List String) (n : Net)
        → b.has_fetch ≡ true
        → Bodies events bodies
        → Posts url bodies n (send_loop b stringify url unload events n)
    unfolding send_loop
    send_loop-Posts url unload [] [] n f h = (sym (append-nil _), refl)
    send_loop-Posts url unload [] (body ∷ bodies) n f h = elim h [ ]
    send_loop-Posts url unload (e ∷ es) [] n f h = elim h [ ]
    send_loop-Posts url unload (e ∷ es) (body ∷ bodies) n f (s, h) =
        let (ih, calm) = send_loop-Posts url unload es bodies (post b url unload body n) f h in
        rw (s, send_loop)
          (
            ih
                ∙ ap (λ l. l ++ map (λ c. (url, c)) bodies) (requests-post url unload body n f)
                ∙ append_assoc (requests n.calls) _ _,
            calm,
          )

    -- Where the browser has `fetch` and every event has a JSON text, `send` makes exactly one
    -- request for each event, in their order, to `host` + "/collect", whatever `sendBeacon`
    -- answers or throws; and no exception leaves it.
    pub send-Posts :
        (host : String) (events : List E) (unload : Bool) (bodies : List String) (n : Net)
        → b.has_fetch ≡ true
        → Bodies events bodies
        → Posts (host +++ "/collect") bodies n (send b stringify host events unload n)
    unfolding send
    send-Posts host events unload bodies n f h =
        send_loop-Posts (host +++ "/collect") unload events bodies n f h

    send_loop-refused :
        (url : String) (events : List E) (bodies : List String) (n : Net)
        → b.has_beacon ≡ true
        → ((k : ℕ) → b.send_beacon k ≡ refused)
        → Bodies events bodies
        → accepted (send_loop b stringify url true events n).0.calls ≡ accepted n.calls
    unfolding send_loop
    send_loop-refused url [] [] n f r h = refl
    send_loop-refused url [] (body ∷ bodies) n f r h = elim h [ ]
    send_loop-refused url (e ∷ es) [] n f r h = elim h [ ]
    send_loop-refused url (e ∷ es) (body ∷ bodies) n f r (s, h) =
        rw (s, send_loop)
          (send_loop-refused url es bodies (post b url true body n) f r h
            ∙ accepted-post url body n f (r (length n.calls)))

    -- The answer `false` of `sendBeacon` (the browser's queue is full) is not read: while the browser
    -- refuses, no event of a batch sent on unload reaches it, though `fetch` may be at hand. The
    -- events of the batch have JSON texts.
    pub refused_beacons_lose :
        (host : String) (events : List E) (bodies : List String) (n : Net)
        → b.has_beacon ≡ true
        → ((k : ℕ) → b.send_beacon k ≡ refused)
        → Bodies events bodies
        → accepted (send b stringify host events true n).0.calls ≡ accepted n.calls
    unfolding send
    refused_beacons_lose host events bodies n f r h =
        send_loop-refused (host +++ "/collect") events bodies n f r h

    send_loop_throws :
        (url : String) (unload : Bool) (before : List E) (bodies : List String) (e : E)
        (after : List E) (n : Net)
        → Bodies before bodies
        → stringify e ≡ none
        → send_loop b stringify url unload (before ++ e ∷ after) n
          ≡ ((send_loop b stringify url unload before n).0, true)
    unfolding send_loop
    send_loop_throws url unload [] [] e after n h s = rw (s, send_loop)
    send_loop_throws url unload [] (body ∷ bodies) e after n h s = elim h [ ]
    send_loop_throws url unload (x ∷ before) [] e after n h s = elim h [ ]
    send_loop_throws url unload (x ∷ before) (body ∷ bodies) e after n (t, h) s =
        rw (t, send_loop)
          (send_loop_throws url unload before bodies e after (post b url unload body n) h s)

    -- An event without a JSON text (a cycle or a BigInt in its props) makes `send` throw into its
    -- caller, and the events behind it in the batch are not sent: what reaches the network is what
    -- the events before it make alone.
    pub send_throws :
        (host : String) (unload : Bool) (before : List E) (bodies : List String) (e : E)
        (after : List E) (n : Net)
        → Bodies before bodies
        → stringify e ≡ none
        → send b stringify host (before ++ e ∷ after) unload n
          ≡ ((send b stringify host before unload n).0, true)
    unfolding send
    send_throws host unload before bodies e after n h s =
        send_loop_throws (host +++ "/collect") unload before bodies e after n h s
