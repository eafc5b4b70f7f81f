-- ===== src/Debugger/Exceptions/Requests.antt =====
-- The client is asked once for the handlers of a file.
use python_vscode.Prelude.{
  ◌≡◌, refl, subst, Text, Bool, true, false, Option, none, some, List, [], ◌∷◌, ◌++◌, any, same,
  text_eq, same_iff, arith, inl, inr, Bool-cases, Option-cases,
}
use python_vscode.Prelude.Dict.{lookup, lookup-insert}
use python_vscode.Debugger.Exceptions.{
  Handler, Cache, TraceFrame, Traceback, handler_catches, Search, request, requested, search_file,
  search_named, search_frames, is_handled,
}

module _ (reply : Text → Option (List Handler)) where
  -- The handlers that one cache holds, the other holds too.
  Extends : Cache → Cache → Type 0
  Extends cache larger =
      (name : Text) (hs : List Handler) → lookup name cache ≡ some hs → lookup name larger ≡ some hs

  Extends-request :
      (cache : Cache) (name : Text) → Extends cache (request reply name (lookup name cache) cache)
  unfolding Extends
  Extends-request cache name n hs h = elim (Option-cases (lookup name cache)) [
    | inr (gs, g) ↦ rw g h
    | inl g ↦ elim (Option-cases (reply name)) [
      | inl r ↦ rw (g, r) h
      | inr (gs, r) ↦
          rw (g, r, lookup-insert name n gs cache)
            (elim (Bool-cases (same name n)) [
              | inl e ↦ let i : name ≡ n = (same_iff name n).0 e in ground (arith, g, h, i)
              | inr e ↦ rw e h
            ])
    ]
  ]

  Extends-refl : (c : Cache) → Extends c c
  unfolding Extends
  Extends-refl c n hs h = h

  has :
      (c d : Cache)
      → Extends c d
      → (name : Text) (hs : List Handler) → lookup name c ≡ some hs
      → lookup name d ≡ some hs
  unfolding Extends
  has c d p = p

  Extends-trans : (c d e : Cache) → Extends c d → Extends d e → Extends c e
  unfolding Extends
  Extends-trans c d e p q n hs h = q n hs (p n hs h)

  -- A frame with a file that is searched.
  search-eq :
      (f : TraceFrame) (fs : List TraceFrame) (cache : Cache) (name : Text)
      → f.should_send ≡ true
      → f.filename ≡ some name
      → f.in_zip ≡ false
      → f.own ≡ false
      → search_frames reply (f ∷ fs) cache
        ≡ search_file reply f
            (lookup name (request reply name (lookup name cache) cache))
            (request reply name (lookup name cache) cache)
            (requested reply name (lookup name cache))
            (search_frames reply fs)
  unfolding search_frames search_named
  search-eq f fs cache name s n z o = simp (s, n, z, o)

  module _ (answers : (name : Text) → (hs : List Handler) × (reply name ≡ some hs)) where
    lookup-request :
        (cache : Cache) (name : Text)
        → (hs : List Handler) × (lookup name (request reply name (lookup name cache) cache)
            ≡ some hs)
    lookup-request cache name = elim (Option-cases (lookup name cache)) [
      | inr (hs, h) ↦ (hs, rw (h, h))
      | inl h ↦ (
        (answers name).0,
        rw (
          h,
          (answers name).1,
          lookup-insert name name (answers name).0 cache,
          (same_iff name name).1 refl,
        ),
      )
    ]

    -- The cases of a frame, by what the search does there.
    data Step (f : TraceFrame) (fs : List TraceFrame) (cache : Cache) : Type 0 where
      -- the search ends without a look at the cache
      stops :
          (found : Bool)
          → ((c : Cache)
              → search_frames reply (f ∷ fs) c
                ≡ record { is_handled = found; cache = c; requests = [] })
          → Step f fs cache
      skips :
          ((c : Cache) → search_frames reply (f ∷ fs) c ≡ search_frames reply fs c)
          → Step f fs cache
      asks :
          (name : Text) (hs : List Handler)
          → ((c : Cache)
              → search_frames reply (f ∷ fs) c
                ≡ search_file reply f
                    (lookup name (request reply name (lookup name c) c))
                    (request reply name (lookup name c) c)
                    (requested reply name (lookup name c))
                    (search_frames reply fs))
          → lookup name (request reply name (lookup name cache) cache) ≡ some hs
          → Step f fs cache

    step : (f : TraceFrame) (fs : List TraceFrame) (cache : Cache) → Step f fs cache
    unfolding search_frames search_named
    step f fs cache = elim (Bool-cases f.should_send) [
      | inr s ↦ stops false (λ c. simp s)
      | inl s ↦ elim (Option-cases f.filename) [
        | inl n ↦ stops false (λ c. simp (s, n))
        | inr (name, n) ↦ elim (Bool-cases f.in_zip) [
          | inl z ↦ stops true (λ c. simp (s, n, z))
          | inr z ↦ elim (Bool-cases f.own) [
            | inl o ↦ skips (λ c. simp (s, n, z, o))
            | inr o ↦
                let known = lookup-request cache name in
                asks name known.0 (λ c. search-eq f fs c name s n z o) known.1
          ]
        ]
      ]
    ]

    Extends-Step :
        (f : TraceFrame) (fs : List TraceFrame) (cache : Cache)
        → ((c : Cache) → Extends c (search_frames reply fs c).cache)
        → Step f fs cache
        → Extends cache (search_frames reply (f ∷ fs) cache).cache
    Extends-Step f fs cache above (stops found e) = rw (e cache) (Extends-refl cache)
    Extends-Step f fs cache above (skips e) = rw (e cache) (above cache)
    Extends-Step f fs cache above (asks name hs e k) =
        let filled : Cache = request reply name (lookup name cache) cache in
        elim (Bool-cases (any (handler_catches f) hs)) [
          | inl y ↦ rw (e cache, k, y) (Extends-request cache name)
          | inr y ↦
              rw (e cache, k, y)
                (Extends-trans cache filled (search_frames reply fs filled).cache
                  (Extends-request cache name) (above filled))
        ]

    Extends-search :
        (fs : List TraceFrame) (cache : Cache) → Extends cache (search_frames reply fs cache).cache
    Extends-search [] cache = unfold search_frames in Extends-refl cache
    Extends-search (f ∷ fs) cache =
        Extends-Step f fs cache (λ c. Extends-search fs c) (step f fs cache)

    -- A cache that holds what the search found answers it at once.
    abbrev Again : List TraceFrame → Cache → Cache → Type 0
    Again fs cache later =
        Extends (search_frames reply fs cache).cache later
        → search_frames reply fs later ≡ record {
          is_handled = (search_frames reply fs cache).is_handled;
          cache = later;
          requests = [];
        }

    Again-Step :
        (f : TraceFrame) (fs : List TraceFrame) (cache later : Cache)
        → ((c : Cache) → Again fs c later)
        → Step f fs cache
        → Again (f ∷ fs) cache later
    Again-Step f fs cache later above (stops found e) x = rw (e later, e cache) refl
    Again-Step f fs cache later above (skips e) x =
        rw (e later, e cache) (above cache (subst (λ s. Extends s.cache later) (e cache) x))
    Again-Step f fs cache later above (asks name hs e k) x =
        let filled : Cache = request reply name (lookup name cache) cache in
        elim (Bool-cases (any (handler_catches f) hs)) [
          | inl y ↦
              let caught : search_frames reply (f ∷ fs) cache ≡ record {
                is_handled = true;
                cache = filled;
                requests = requested reply name (lookup name cache);
              } =
                rw (e cache, k, y) in
              let held : Extends filled later = subst (λ s. Extends s.cache later) caught x in
              rw (
                caught,
                e later,
                has filled later held name hs k,
                has filled later held name hs k,
                y,
              )
          | inr y ↦
              let up : Search = search_frames reply fs filled in
              let passed : search_frames reply (f ∷ fs) cache ≡ record {
                is_handled = up.is_handled;
                cache = up.cache;
                requests = requested reply name (lookup name cache) ++ up.requests;
              } =
                rw (e cache, k, y) in
              let held : Extends up.cache later = subst (λ s. Extends s.cache later) passed x in
              let l : lookup name later ≡ some hs =
                has up.cache later held name hs
                  (has filled up.cache (Extends-search fs filled) name hs k) in
              rw (passed, e later, l, l, y, above filled held)
        ]

    search_frames-Again : (fs : List TraceFrame) (cache later : Cache) → Again fs cache later
    search_frames-Again [] cache later x = unfold search_frames in refl
    search_frames-Again (f ∷ fs) cache later x =
        Again-Step f fs cache later (λ c. search_frames-Again fs c later) (step f fs cache) x

    -- If the client answers each request, then a second look at the same traceback comes to the same
    -- answer, asks the client for nothing and leaves the cache as the first has left it.
    pub is_handled-again :
        (trace : Option Traceback) (cache : Cache)
        → let first : Search = is_handled reply trace cache in
          is_handled reply trace first.cache
          ≡ record { is_handled = first.is_handled; cache = first.cache; requests = [] }
    unfolding is_handled
    is_handled-again none cache = refl
    is_handled-again (some trace) cache = elim (Bool-cases trace.next_debugged) [
      | inl y ↦ rw y
      | inr y ↦ rw y (search_frames-Again trace.frames cache _ (Extends-refl _))
    ]
