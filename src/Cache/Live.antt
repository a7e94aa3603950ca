-- ===== src/Cache/Live.antt =====
-- `MemoryCache` of src/core/cache.py against a map from keys to items that forgets nothing: reading
-- away what has expired does not show.
use sibilla.Base.{
  Text, text_key, List, [], ◌∷◌, Option, none, some, Bool, Bool-cases, inl, inr, true, false,
  lookup, lookup-insert, lookup-remove, insert-IsDict, remove-IsDict, IsDict, insert, ◌≡◌, refl,
  sym, ap, ◌∙◌, if◌then◌else◌, arith,
}
use sibilla.Float.{Float, IsFloat, ◌⊕◌, ◌=F◌, ◌≼◌, nought}
use sibilla.Cache.{
  Item, MemoryCache, is_expired, expiry, get_item, get_key, set_key, delete, current_of, expiry_of,
  counted, incr,
}

-- A call at its time; `count` is `incr` with a time to live.
pub data Op (W B : Type 0) : Type 0 where
  getting : Text → Op W B
  setting : Text → B → Option W → Op W B
  deleting : Text → Op W B
  counting : Text → W → W → Op W B

module _ {W B : Type 0} ⦃F : Float W⦄ (loads : B → Option W) (dumps : W → B) where
  abbrev pub step : W → Op W B → MemoryCache W B → MemoryCache W B
  unfolding get_key set_key delete incr
  step now (getting key) c = (get_key now key c).1
  step now (setting key value ttl) c = set_key now key value ttl c
  step now (deleting key) c = delete key c
  step now (counting key amount ttl) c = (incr loads dumps now key amount (some ttl) c).1

  abbrev pub run : List (W × Op W B) → MemoryCache W B → MemoryCache W B
  run [] c = c
  run ((now, op) ∷ ops) c = run ops (step now op c)

  -- The abstract store: a function on keys, which a read leaves as it is.
  abbrev pub spec_step : W → Op W B → (Text → Option (Item W B)) → Text → Option (Item W B)
  spec_step now (getting key) m j = m j
  spec_step now (setting key value ttl) m j =
      if text_key.beq key j then some (value, expiry now ttl none) else m j
  spec_step now (deleting key) m j = if text_key.beq key j then none else m j
  spec_step now (counting key amount ttl) m j = elim (current_of loads now (m key)) [
    | none ↦ m j
    | some n ↦ if text_key.beq key j then some (dumps (n ⊕ amount), some (now ⊕ ttl)) else m j
  ]

  abbrev pub spec_run : List (W × Op W B) → (Text → Option (Item W B)) → Text → Option (Item W B)
  spec_run [] m = m
  spec_run ((now, op) ∷ ops) m = spec_run ops (spec_step now op m)

module _ {W : Type 0} ⦃F : Float W⦄ where
  pub expiry-lasting :
      (now ttl : W) (default : Option W)
      → (ttl =F nought) ≡ false
      → expiry now (some ttl) default ≡ some (now ⊕ ttl)
  expiry-lasting now ttl default h = rw (h) refl

module _ {W : Type 0} ⦃F : Float W⦄ (L : IsFloat W) where
  is_expired-later :
      (now later : W) (expires : Option W)
      → now ≼ later
      → is_expired now expires ≡ true
      → is_expired later expires ≡ true
  is_expired-later now later none h k = k
  is_expired-later now later (some e) h k = ground (arith, L.le_trans now later e)

module _ {W B : Type 0} ⦃F : Float W⦄ where
  -- What of an item is given at a time.
  abbrev pub live : W → Option (Item W B) → Option (Item W B)
  live now none = none
  live now (some (value, expires)) = if is_expired now expires then none else some (value, expires)

  abbrev pub value_of : Option (Item W B) → Option B
  value_of none = none
  value_of (some (value, expires)) = some value

  -- A counter's time to live is not zero; and the calls are in the order of their times, from `start`
  -- to `end`.
  abbrev pub IsLasting : Op W B → Type 0
  IsLasting (counting key amount ttl) = (ttl =F nought) ≡ false
  IsLasting _ = Unit {0}

  abbrev pub IsTimed : W → W → List (W × Op W B) → Type 0
  IsTimed start end [] = start ≼ end
  IsTimed start end ((now, op) ∷ ops) = (start ≼ now) × (IsLasting op) × IsTimed now end ops

  abbrev Agree : W → MemoryCache W B → (Text → Option (Item W B)) → Type 0
  Agree now c m = (j : Text) → live now (lookup j c) ≡ live now (m j)

  live-expired :
      (now : W) (value : B) (expires : Option W)
      → is_expired now expires ≡ true
      → live now (some (value, expires)) ≡ none
  live-expired now value expires h = rw (h) refl

  live-if :
      (now : W) (b : Bool) (x y z : Option (Item W B))
      → live now y ≡ live now z
      → live now (if b then x else y) ≡ live now (if b then x else z)
  live-if now true x y z h = refl
  live-if now false x y z h = h

  live-get_item :
      (now : W) (key j : Text) (o : Option (Item W B)) (c : MemoryCache W B)
      → IsDict c
      → lookup key c ≡ o
      → live now (lookup j (get_item now key o c).1) ≡ live now (lookup j c)
  unfolding get_item
  live-get_item now key j none c d e = refl
  live-get_item now key j (some (value, expires)) c d e =
      elim (Bool-cases (is_expired now expires)) [
        | inr fresh ↦ rw (fresh) refl
        | inl old ↦ rw (old) (elim (Bool-cases (text_key.beq key j)) [
          | inr other ↦
              ap (live now)
                (lookup-remove key j c d ∙ ap (λ b. if b then none else lookup j c) other)
          | inl same ↦
              ap (live now)
                (lookup-remove key j c d ∙ ap (λ b. if b then none else lookup j c) same)
              ∙ sym (live-expired now value expires old)
              ∙ ap (live now) (sym e ∙ ap (λ i. lookup i c) ((text_key.beq_iff key j).0 same))
        ])
      ]

  current_of-live :
      (loads : B → Option W) (now : W) (o : Option (Item W B))
      → current_of loads now o ≡ current_of loads now (live now o)
  current_of-live loads now none = refl
  current_of-live loads now (some (value, expires)) = ground arith

  get_item-live :
      (now : W) (key : Text) (o : Option (Item W B)) (c : MemoryCache W B)
      → (get_item now key o c).0 ≡ value_of (live now o)
  unfolding get_item
  get_item-live now key none c = refl
  get_item-live now key (some (value, expires)) c = ground arith

  get_key-live :
      (now : W) (key : Text) (c : MemoryCache W B)
      → (get_key now key c).0 ≡ value_of (live now (lookup key c))
  unfolding get_key get_item
  get_key-live now key c = get_item-live now key (lookup key c) c

  -- What is not given any more at one time is not given later.
  module _ (L : IsFloat W) where
    live-later :
        (now later : W) (o : Option (Item W B))
        → now ≼ later
        → live later (live now o) ≡ live later o
    live-later now later none h = refl
    live-later now later (some (value, expires)) h =
        ground (arith, is_expired-later L now later expires h)

    Agree-later :
        (now later : W) (c : MemoryCache W B) (m : Text → Option (Item W B))
        → now ≼ later
        → Agree now c m
        → Agree later c m
    Agree-later now later c m h agree j =
        sym (live-later now later (lookup j c) h)
        ∙ ap (live later) (agree j)
        ∙ live-later now later (m j) h

    -- A store into one key, in both.
    insert-Agree :
        (now : W) (key j : Text) (i : Item W B) (c : MemoryCache W B) (m : Text → Option (Item W B))
        → Agree now c m
        → live now (lookup j (insert key i c))
          ≡ live now (if text_key.beq key j then some i else m j)
    insert-Agree now key j i c m agree =
        ap (live now) (lookup-insert key j i c)
        ∙ live-if now (text_key.beq key j) (some i) (lookup j c) (m j) (agree j)

    -- A counter that is read as `o` on both sides.
    counted-Agree :
        (dumps : W → B) (now amount : W) (key j : Text) (e : Option W) (o : Option W)
        (c : MemoryCache W B) (m : Text → Option (Item W B))
        → Agree now c m
        → live now (lookup j (counted dumps key amount e o c).1)
          ≡ live now (elim o [
            | none ↦ m j
            | some n ↦ if text_key.beq key j then some (dumps (n ⊕ amount), e) else m j
          ])
    unfolding counted
    counted-Agree dumps now amount key j e none c m agree = agree j
    counted-Agree dumps now amount key j e (some n) c m agree =
        insert-Agree now key j (dumps (n ⊕ amount), e) c m agree

    counted-IsDict :
        (dumps : W → B) (key : Text) (amount : W) (e : Option W) (o : Option W)
        (c : MemoryCache W B)
        → IsDict c
        → IsDict (counted dumps key amount e o c).1
    unfolding counted
    counted-IsDict dumps key amount e none c d = d
    counted-IsDict dumps key amount e (some n) c d = insert-IsDict key (dumps (n ⊕ amount), e) c d

    step-Agree :
        (loads : B → Option W) (dumps : W → B) (now : W) (op : Op W B) (c : MemoryCache W B)
        (m : Text → Option (Item W B))
        → IsLasting op
        → IsDict c
        → Agree now c m
        → Agree now (step loads dumps now op c) (spec_step loads dumps now op m)
    unfolding get_key set_key delete incr
    step-Agree loads dumps now (getting key) c m lasting d agree j =
        live-get_item now key j (lookup key c) c d refl ∙ agree j
    step-Agree loads dumps now (setting key value ttl) c m lasting d agree j =
        insert-Agree now key j (value, expiry now ttl none) c m agree
    step-Agree loads dumps now (deleting key) c m lasting d agree j =
        ap (live now) (lookup-remove key j c d)
        ∙ live-if now (text_key.beq key j) none (lookup j c) (m j) (agree j)
    step-Agree loads dumps now (counting key amount ttl) c m lasting d agree j =
        let count =
          current_of-live loads now (lookup key c)
          ∙ ap (current_of loads now) (agree key)
          ∙ sym (current_of-live loads now (m key)) in
        counted-Agree dumps now amount key j (expiry now (some ttl) (expiry_of (lookup key c)))
          (current_of loads now (lookup key c)) c m agree
        ∙ ap
            (λ e. live now (elim (current_of loads now (lookup key c)) [
              | none ↦ m j
              | some n ↦ if text_key.beq key j then some (dumps (n ⊕ amount), e) else m j
            ]))
            (expiry-lasting now ttl (expiry_of (lookup key c)) lasting)
        ∙ ap
            (λ o. live now (elim o [
              | none ↦ m j
              | some n ↦
                  if text_key.beq key j then some (dumps (n ⊕ amount), some (now ⊕ ttl)) else m j
            ]))
            count

    get_item-IsDict :
        (now : W) (key : Text) (o : Option (Item W B)) (c : MemoryCache W B)
        → IsDict c
        → IsDict (get_item now key o c).1
    unfolding get_item
    get_item-IsDict now key none c d = d
    get_item-IsDict now key (some (value, expires)) c d =
        elim (Bool-cases (is_expired now expires)) [
          | inl old ↦ rw (old) (remove-IsDict key c d)
          | inr fresh ↦ rw (fresh) d
        ]

    step-IsDict :
        (loads : B → Option W) (dumps : W → B) (now : W) (op : Op W B) (c : MemoryCache W B)
        → IsDict c
        → IsDict (step loads dumps now op c)
    unfolding get_key set_key delete incr
    step-IsDict loads dumps now (getting key) c d = get_item-IsDict now key (lookup key c) c d
    step-IsDict loads dumps now (setting key value ttl) c d =
        insert-IsDict key (value, expiry now ttl none) c d
    step-IsDict loads dumps now (deleting key) c d = remove-IsDict key c d
    step-IsDict loads dumps now (counting key amount ttl) c d =
        counted-IsDict dumps key amount (expiry now (some ttl) (expiry_of (lookup key c)))
          (current_of loads now (lookup key c)) c d

    run-Agree :
        (loads : B → Option W) (dumps : W → B) (start end : W) (ops : List (W × Op W B))
        (c : MemoryCache W B) (m : Text → Option (Item W B))
        → IsTimed start end ops
        → IsDict c
        → Agree start c m
        → Agree end (run loads dumps ops c) (spec_run loads dumps ops m)
    run-Agree loads dumps start end [] c m h d agree = Agree-later start end c m h agree
    run-Agree loads dumps start end ((now, op) ∷ ops) c m (h, lasting, hs) d agree =
        run-Agree loads dumps now end ops (step loads dumps now op c)
          (spec_step loads dumps now op m) hs (step-IsDict loads dumps now op c d)
          (step-Agree loads dumps now op c m lasting d (Agree-later start now c m h agree))

    -- After any calls on an empty cache, in the order of their times and counting with a time to live,
    -- `get` gives what the last write of the key left, and nothing once that has expired: as if the
    -- cache were a map that forgets nothing and that reading does not change.
    pub run-live :
        (loads : B → Option W) (dumps : W → B) (start end : W) (ops : List (W × Op W B))
        (key : Text)
        → IsTimed start end ops
        → (get_key end key (run loads dumps ops [])).0
          ≡ value_of (live end (spec_run loads dumps ops (λ j. none) key))
    run-live loads dumps start end ops key h =
        get_key-live end key (run loads dumps ops [])
        ∙ ap value_of (run-Agree loads dumps start end ops [] (λ j. none) h tt (λ j. refl) key)
