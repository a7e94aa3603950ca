-- ===== src/Cache/Facade.antt =====
-- `Cache.get_or_set` and the counters of src/core/cache.py.
use sibilla.Base.{
  Text, text_key, Dict, not, Option, none, some, Bool-cases, inl, inr, false, lookup, lookup-insert,
  insert, ◌≡◌, refl, ap, ◌∙◌, if◌then◌else◌, arith,
}
use sibilla.Float.{Float, ◌⊕◌, ◌=F◌, ◌≼◌, ◌≺◌, nought}
use sibilla.Cache.{
  MemoryCache, Codec, IsCodec, is_expired, expiry, get_item, get_key, set_key, counted, incr,
  current_of, expiry_of, full_key, decoded, get_json, set_json, store_made, get_or_set,
}
use sibilla.Cache.Live.{expiry-lasting}

lookup-insert_same :
    {V : Type 0} (key : Text) (v : V) (c : Dict Text V) → lookup key (insert key v c) ≡ some v
lookup-insert_same key v c =
    lookup-insert key key v c
    ∙ ap (λ b. if b then some v else lookup key c) ((text_key.beq_iff key key).1 refl)

decoded-dumps :
    {B V : Type 0} (k : Codec B V) (K : IsCodec k) (v : V)
    → decoded k (some (k.dumps (some v))) ≡ some v
decoded-dumps k K v = rw (K.dumps_nonempty (some v)) (K.loads-dumps (some v))

module _ {W B : Type 0} ⦃F : Float W⦄ where
  get_key-insert :
      (now : W) (key : Text) (value : B) (expires : Option W) (c : MemoryCache W B)
      → (get_key now key (insert key (value, expires) c)).0
        ≡ (if is_expired now expires then none else some value)
  unfolding get_key get_item
  get_key-insert now key value expires c =
      ap (λ o. (get_item now key o (insert key (value, expires) c)).0)
        (lookup-insert_same key (value, expires) c)
      ∙ (elim (Bool-cases (is_expired now expires)) [
        | inl old ↦ rw (old) refl
        | inr fresh ↦ rw (fresh) refl
      ])

  counted-old :
      (dumps : W → B) (later amount : W) (key : Text) (value : B) (expires : W) (o : Option W)
      (c : MemoryCache W B)
      → lookup key c ≡ some (value, some expires)
      → expires ≺ later
      → (get_key later key (counted dumps key amount (some expires) o c).1).0 ≡ none
  unfolding counted get_key get_item
  counted-old dumps later amount key value expires none c e h =
      ap (λ i. (get_item later key i c).0) e ∙ rw (h) refl
  counted-old dumps later amount key value expires (some n) c e h =
      get_key-insert later key (dumps (n ⊕ amount)) (some expires) c ∙ rw (h) refl

  -- A counter that has expired and is counted up without a new time to live keeps the old one: what
  -- is stored is never given.
  pub incr-expired :
      (loads : B → Option W) (dumps : W → B) (now later amount : W) (key : Text) (value : B)
      (expires : W) (c : MemoryCache W B)
      → lookup key c ≡ some (value, some expires)
      → expires ≺ later
      → (get_key later key (incr loads dumps now key amount none c).1).0 ≡ none
  unfolding incr
  incr-expired loads dumps now later amount key value expires c e h =
      ap
        (λ x.
          (get_key later key
            (counted dumps key amount x (current_of loads now (lookup key c)) c).1).0)
        (ap expiry_of e)
      ∙ counted-old dumps later amount key value expires (current_of loads now (lookup key c)) c e h

module _ {W B V : Type 0} ⦃F : Float W⦄ (k : Codec B V) (namespace : Text) where
  store_missed :
      (later : W) (key : Text) (v : V) (ttl : Option W) (p : Option V × MemoryCache W B)
      → p.0 ≡ none
      → store_made k namespace later key (some v) ttl p
        ≡ (some v, set_json k namespace later key (some v) ttl p.1)
  unfolding store_made
  store_missed later key v ttl (none, c) h = refl
  store_missed later key v ttl (some w, c) h = ground arith

  store_hit :
      (later : W) (key : Text) (v : V) (made : Option V) (ttl : Option W)
      (p : Option V × MemoryCache W B)
      → p.0 ≡ some v
      → (store_made k namespace later key made ttl p).0 ≡ some v
  unfolding store_made
  store_hit later key v made ttl (none, c) h = ground arith
  store_hit later key v made ttl (some w, c) h = h

  get_json-set_json :
      (later then_ : W) (key : Text) (v : V) (ttl : W) (c : MemoryCache W B)
      → IsCodec k
      → (ttl =F nought) ≡ false
      → then_ ≼ later ⊕ ttl
      → (get_json k namespace then_ key (set_json k namespace later key (some v) (some ttl) c)).0
        ≡ some v
  unfolding get_json set_json set_key
  get_json-set_json later then_ key v ttl c K lasting h =
      let value = k.dumps (some v) in
      ap (decoded k) (
        get_key-insert then_ (full_key namespace key) value (expiry later (some ttl) none) c
        ∙ ap (λ e. if is_expired then_ e then none else some value)
            (expiry-lasting later ttl none lasting)
        ∙ ap (λ b. if not b then none else some value) h)
      ∙ decoded-dumps k K v

  -- What a factory made for a key that was not cached is given to the calls of the time to live that
  -- follow, whatever their own factories would make.
  pub get_or_set-cached :
      (now later then_ after : W) (key : Text) (v : V) (other : Option V) (ttl : W)
      (c : MemoryCache W B)
      → IsCodec k
      → (get_json k namespace now key c).0 ≡ none
      → (ttl =F nought) ≡ false
      → then_ ≼ later ⊕ ttl
      → let first = get_or_set k namespace now later key (some v) (some ttl) c in
        (first.0 ≡ some v)
        × ((get_or_set k namespace then_ after key other (some ttl) first.1).0 ≡ some v)
  unfolding get_or_set
  get_or_set-cached now later then_ after key v other ttl c K missed lasting h =
      let read = get_json k namespace now key c in
      let stored = store_missed later key v (some ttl) read missed in
      (
        ap (λ p. p.0) stored,
        store_hit after key v other (some ttl)
            (get_json k namespace then_ key
              (store_made k namespace later key (some v) (some ttl) read).1)
            (ap (λ p. (get_json k namespace then_ key p.1).0) stored
              ∙ get_json-set_json later then_ key v ttl read.1 K lasting h),
      )
