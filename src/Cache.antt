-- ===== src/Cache.antt =====
-- `MemoryCache` and the facade `Cache` of src/core/cache.py, with the time as an argument. The bytes and
-- the JSON codec of orjson are parameters; Redis is not modelled.
pub mod Live
pub mod Facade
use sibilla.Base.{
  Text, text, text_key, List, [], ◌∷◌, ◌++◌, Option, none, some, Bool, true, false, not, Dict,
  lookup, insert, remove, select, map, starts_with, ◌≡◌, if◌then◌else◌,
}
use sibilla.Float.{Float, ◌⊕◌, ◌<?◌, ◌=F◌, nought}

-- An entry: the bytes, and the time after which they are not given any more.
abbrev pub Item : Type 0 → Type 0 → Type 0
Item W B = B × Option W

abbrev pub MemoryCache : Type 0 → Type 0 → Type 0
MemoryCache W B = Dict Text (Item W B)

module _ {W : Type 0} ⦃F : Float W⦄ where
  -- `expires is not None and now > expires`
  abbrev pub is_expired : W → Option W → Bool
  is_expired now none = false
  is_expired now (some expires) = expires <? now

  -- `now + ttl_s if ttl_s else default`; a `ttl_s` of zero is none.
  abbrev pub expiry : W → Option W → Option W → Option W
  expiry now none default = default
  expiry now (some ttl) default = if ttl =F nought then default else some (now ⊕ ttl)

module _ {W B : Type 0} ⦃F : Float W⦄ where
  unfoldable pub get_item :
      W → Text → Option (Item W B) → MemoryCache W B → Option B × MemoryCache W B
  get_item now key none c = (none, c)
  get_item now key (some (value, expires)) c =
      if is_expired now expires then (none, remove key c) else (some value, c)

  unfoldable pub get_key : W → Text → MemoryCache W B → Option B × MemoryCache W B
  unfolding get_item
  get_key now key c = get_item now key (lookup key c) c

  unfoldable pub set_key : W → Text → B → Option W → MemoryCache W B → MemoryCache W B
  set_key now key value ttl c = insert key (value, expiry now ttl none) c

  unfoldable pub delete : Text → MemoryCache W B → MemoryCache W B
  delete key c = remove key c

  -- The counter that an item holds; `loads` reads a number from the bytes, or raises.
  abbrev pub current_of : (B → Option W) → W → Option (Item W B) → Option W
  current_of loads now none = some nought
  current_of loads now (some (value, expires)) =
      if is_expired now expires then some nought else loads value

  abbrev pub expiry_of : Option (Item W B) → Option W
  expiry_of none = none
  expiry_of (some (value, expires)) = expires

  -- From the counter on; `none` is the exception of reading it, which leaves the cache.
  unfoldable pub counted :
      (W → B) → Text → W → Option W → Option W → MemoryCache W B → Option W × MemoryCache W B
  counted dumps key amount expires none c = (none, c)
  counted dumps key amount expires (some n) c =
      (some (n ⊕ amount), insert key (dumps (n ⊕ amount), expires) c)

  unfoldable pub incr :
      (B → Option W)
      → (W → B)
      → W
      → Text
      → W
      → Option W
      → MemoryCache W B
      → Option W × MemoryCache W B
  unfolding counted
  incr loads dumps now key amount ttl c =
      counted dumps key amount (expiry now ttl (expiry_of (lookup key c)))
        (current_of loads now (lookup key c)) c

  -- `[k for k in self._data if k.startswith(prefix)]`
  unfoldable pub keys : Text → MemoryCache W B → List Text
  keys prefix c = select (λ k. starts_with k prefix) (map (λ e. e.0) c)

-- orjson's `dumps` and `loads`, as the facade uses them: `none` is JSON's null, which is Python's None, and
-- `V` are the other values of JSON. Those that `default=str` makes texts of, and NaN, are left out.
pub record Codec (B V : Type 0) : Type 0 where
  pub dumps : Option V → B
  pub loads : B → Option V
  pub is_empty : B → Bool

-- Documented behaviour of orjson on the values of JSON: what is dumped is read back, and it is not empty.
pub record IsCodec {B V : Type 0} (k : Codec B V) : Type 0 where
  pub loads-dumps : (v : Option V) → k.loads (k.dumps v) ≡ v
  pub dumps_nonempty : (v : Option V) → k.is_empty (k.dumps v) ≡ false

abbrev pub full_key : Text → Text → Text
full_key namespace key = namespace ++ (text ":" ++ key)

-- `orjson.loads(raw) if raw else None`
abbrev pub decoded : {B V : Type 0} → Codec B V → Option B → Option V
decoded k none = none
decoded k (some raw) = if k.is_empty raw then none else k.loads raw

module _ {W B V : Type 0} ⦃F : Float W⦄ (k : Codec B V) (namespace : Text) where
  unfoldable pub get_json : W → Text → MemoryCache W B → Option V × MemoryCache W B
  unfolding get_key
  get_json now key c = let got = get_key now (full_key namespace key) c in (decoded k got.0, got.1)

  unfoldable pub set_json : W → Text → Option V → Option W → MemoryCache W B → MemoryCache W B
  unfolding set_key
  set_json now key value ttl c = set_key now (full_key namespace key) (k.dumps value) ttl c

  -- After the look into the cache; `made` is what the factory gives, at the time `later`.
  unfoldable pub store_made :
      W → Text → Option V → Option W → Option V × MemoryCache W B → Option V × MemoryCache W B
  unfolding set_json
  store_made later key made ttl (some v, c) = (some v, c)
  store_made later key none ttl (none, c) = (none, c)
  store_made later key (some v) ttl (none, c) = (some v, set_json later key (some v) ttl c)

  unfoldable pub get_or_set :
      W → W → Text → Option V → Option W → MemoryCache W B → Option V × MemoryCache W B
  unfolding get_json store_made
  get_or_set now later key made ttl c = store_made later key made ttl (get_json now key c)
