-- ===== src/Debugger/Exceptions/Handled.antt =====
-- What it means that an exception is handled: some frame handles it, and every frame between that
-- and the one that raises it passes it on.
use python_vscode.Prelude.{
  ◌≡◌, refl, ◌∙◌, Text, Bool, true, false, Option, none, some, List, [], ◌∷◌, if◌then◌else◌, any,
  same, text_eq, same_iff, arith, inl, inr, ◌⊎◌, ◌↔◌, Bool-cases, Option-cases,
}
use python_vscode.Prelude.Dict.{lookup, lookup-insert}
use python_vscode.Debugger.Exceptions.{
  Handler, Cache, TraceFrame, handler_catches, Search, request, search_file, search_named,
  search_frames,
}

-- The frame handles the exception.
abbrev pub Handles : (Text → Option (List Handler)) → TraceFrame → Type 0
Handles known f =
    (name : Text) × (f.should_send ≡ true)
    × (f.filename ≡ some name)
    × ((f.in_zip ≡ true)
        ⊎ ((f.own ≡ false)
            × ((hs : List Handler) × (known name ≡ some hs) × (any (handler_catches f) hs ≡ true))))

-- The search goes on above the frame.
abbrev pub Passes : (Text → Option (List Handler)) → TraceFrame → Type 0
Passes known f =
    (name : Text) × (f.should_send ≡ true)
    × (f.filename ≡ some name)
    × (f.in_zip ≡ false)
    × ((f.own ≡ true)
        ⊎ ((hs : List Handler) × (known name ≡ some hs) × (any (handler_catches f) hs ≡ false)))

pub data HandledIn (known : Text → Option (List Handler)) : List TraceFrame → Type 0 where
  here : {f : TraceFrame} {fs : List TraceFrame} → Handles known f → HandledIn known (f ∷ fs)
  above :
      {f : TraceFrame} {fs : List TraceFrame}
      → Passes known f
      → HandledIn known fs
      → HandledIn known (f ∷ fs)

module _ (reply : Text → Option (List Handler)) where
  -- The handlers of a file: those in the cache, or else those that are in the reply.
  abbrev pub handlers_of : Cache → Text → Option (List Handler)
  handlers_of cache name = elim (lookup name cache) [ none ↦ reply name | some hs ↦ some hs ]

  -- A request changes nothing of what is known.
  handlers_of-request :
      (cache : Cache) (name other : Text)
      → handlers_of (request reply name (lookup name cache) cache) other ≡ handlers_of cache other
  handlers_of-request cache name other = elim (Option-cases (lookup name cache)) [
    | inr (hs, h) ↦ rw h
    | inl h ↦ elim (Option-cases (reply name)) [
      | inl r ↦ rw (h, r)
      | inr (hs, r) ↦
          rw (h, r, handlers_of, lookup-insert name other hs cache)
            (elim (Bool-cases (same name other)) [
              | inl e ↦
                  let i : name ≡ other = (same_iff name other).0 e in
                  rw e (rw⁻¹ i (rw (handlers_of, h, r)))
              | inr e ↦ rw e
            ])
    ]
  ]

  lookup-request :
      (cache : Cache) (name : Text)
      → lookup name (request reply name (lookup name cache) cache) ≡ handlers_of cache name
  lookup-request cache name = elim (Option-cases (lookup name cache)) [
    | inr (hs, h) ↦ rw (handlers_of, h, h)
    | inl h ↦ elim (Option-cases (reply name)) [
      | inl r ↦ rw (handlers_of, h, r, h)
      | inr (hs, r) ↦
          rw (handlers_of, h, r, lookup-insert name name hs cache, (same_iff name name).1 refl)
    ]
  ]

  search_file-eq :
      (f : TraceFrame) (hs : List Handler) (cache : Cache) (asked : List Text)
      (rest : Cache → Search)
      → (search_file reply f (some hs) cache asked rest).is_handled
        ≡ (if any (handler_catches f) hs then true else (rest cache).is_handled)
  search_file-eq f hs cache asked rest = elim (Bool-cases (any (handler_catches f) hs)) [
    | inl y ↦ rw y
    | inr y ↦ rw y
  ]

  -- The search with a given answer for the file of the first frame.
  search-eq :
      (f : TraceFrame) (fs : List TraceFrame) (cache : Cache) (name : Text) (hs : List Handler)
      → f.should_send ≡ true
      → f.filename ≡ some name
      → f.in_zip ≡ false
      → f.own ≡ false
      → handlers_of cache name ≡ some hs
      → (search_frames reply (f ∷ fs) cache).is_handled ≡ (
          if any (handler_catches f) hs
          then true
          else (search_frames reply fs (request reply name (lookup name cache) cache)).is_handled)
  unfolding search_frames search_named
  search-eq f fs cache name hs s n z o h =
      simp (s, n, z, o, lookup-request cache name, h)
        (search_file-eq f hs _ _ (search_frames reply fs))

  search-eq_own :
      (f : TraceFrame) (fs : List TraceFrame) (cache : Cache) (name : Text)
      → f.should_send ≡ true
      → f.filename ≡ some name
      → f.in_zip ≡ false
      → f.own ≡ true
      → search_frames reply (f ∷ fs) cache ≡ search_frames reply fs cache
  unfolding search_frames search_named
  search-eq_own f fs cache name s n z o = simp (s, n, z, o)

  search-eq_unknown :
      (f : TraceFrame) (fs : List TraceFrame) (cache : Cache) (name : Text)
      → f.should_send ≡ true
      → f.filename ≡ some name
      → f.in_zip ≡ false
      → f.own ≡ false
      → handlers_of cache name ≡ none
      → (search_frames reply (f ∷ fs) cache).is_handled ≡ false
  unfolding search_frames search_named
  search-eq_unknown f fs cache name s n z o h = simp (s, n, z, o, lookup-request cache name, h)

  module _ (known : Text → Option (List Handler)) where
    Knows : Cache → Type 0
    Knows cache = (n : Text) → handlers_of cache n ≡ known n

    Knows-request :
        (cache : Cache) (name : Text)
        → Knows cache
        → Knows (request reply name (lookup name cache) cache)
    unfolding Knows
    Knows-request cache name k n = handlers_of-request cache name n ∙ k n

    search-none : {b c d : Bool} → b ≡ (if d then true else c) → d ≡ false → b ≡ c
    search-none {d = true} p q = ground arith
    search-none {d = false} p q = p

    HandledIn-is_handled :
        (fs : List TraceFrame) (cache : Cache)
        → Knows cache
        → HandledIn known fs
        → (search_frames reply fs cache).is_handled ≡ true
    unfolding Knows
    HandledIn-is_handled [] cache k h = elim h [ ]
    HandledIn-is_handled (f ∷ fs) cache k (here (name, s, n, inl z)) =
        unfold search_frames search_named in rw (s, n, z)
    HandledIn-is_handled (f ∷ fs) cache k (here (name, s, n, inr (o, (hs, h, y)))) =
        elim (Bool-cases f.in_zip) [
          | inl z ↦ unfold search_frames search_named in rw (s, n, z)
          | inr z ↦ search-eq f fs cache name hs s n z o (k name ∙ h) ∙ rw y
        ]
    HandledIn-is_handled (f ∷ fs) cache k (above (name, s, n, z, inl o) r) =
        rw (search-eq_own f fs cache name s n z o) (HandledIn-is_handled fs cache k r)
    HandledIn-is_handled (f ∷ fs) cache k (above (name, s, n, z, inr (hs, h, y)) r) =
        elim (Bool-cases f.own) [
          | inl o ↦ rw (search-eq_own f fs cache name s n z o) (HandledIn-is_handled fs cache k r)
          | inr o ↦
              search-eq f fs cache name hs s n z o (k name ∙ h)
              ∙ rw y (HandledIn-is_handled fs _ (Knows-request cache name k) r)
        ]

    is_handled-HandledIn :
        (fs : List TraceFrame) (cache : Cache)
        → Knows cache
        → (search_frames reply fs cache).is_handled ≡ true
        → HandledIn known fs
    unfolding Knows
    is_handled-HandledIn [] cache k h = unfold search_frames in ground arith
    is_handled-HandledIn (f ∷ fs) cache k h = elim (Bool-cases f.should_send) [
      | inr s ↦ unfold search_frames in ground (arith, h, s)
      | inl s ↦ elim (Option-cases f.filename) [
        | inl n ↦ unfold search_frames search_named in ground (arith, h, s, n)
        | inr (name, n) ↦ elim (Bool-cases f.in_zip) [
          | inl z ↦ here {f = f} (name, s, n, inl z)
          | inr z ↦ elim (Bool-cases f.own) [
            | inl o ↦
                above {f = f} (name, s, n, z, inl o)
                  (is_handled-HandledIn fs cache k (rw⁻¹ (search-eq_own f fs cache name s n z o) h))
            | inr o ↦ elim (Option-cases (known name)) [
              | inl u ↦ ground (arith, search-eq_unknown f fs cache name s n z o (k name ∙ u), h)
              | inr (hs, u) ↦
                  let e = search-eq f fs cache name hs s n z o (k name ∙ u) in
                  elim (Bool-cases (any (handler_catches f) hs)) [
                    | inl y ↦ here {f = f} (name, s, n, inr (o, (hs, u, y)))
                    | inr y ↦
                        above {f = f} (name, s, n, z, inr (hs, u, y))
                          (is_handled-HandledIn fs _ (Knows-request cache name k)
                            (rw⁻¹ (search-none e y) h))
                  ]
            ]
          ]
        ]
      ]
    ]

  -- With the handlers that the cache holds or the client replies, the search finds that the exception is
  -- handled exactly if some frame handles it and every frame below that passes it on: a frame
  -- without a file, one that should not be sent, and one whose file's handlers are unknown end it.
  pub is_handled_iff :
      (fs : List TraceFrame) (cache : Cache)
      → ((search_frames reply fs cache).is_handled ≡ true) ↔ HandledIn (handlers_of cache) fs
  unfolding Knows
  is_handled_iff fs cache = (
    is_handled-HandledIn (handlers_of cache) fs cache (λ n. refl),
    HandledIn-is_handled (handlers_of cache) fs cache (λ n. refl),
  )
