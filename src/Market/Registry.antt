-- ===== src/Market/Registry.antt =====
-- src/market/instrument_registry.py: the registry of instruments by epic and by alias, and the
-- structural correlation of two factor vectors. The seed table and the fuzzy matching of names are
-- left out.
use sibilla.Base.{
  Text, lower, List, [], ◌∷◌, map, Option, none, some, Bool, ◌||◌, Dict, lookup, get, insert,
  text_key, select, sort_by, ◌=?◌, not, if◌then◌else◌,
}
use sibilla.Float.{Float, ◌⊕◌, ◌⊗◌, ◌⊘◌, ◌=F◌, ◌≤?◌, nought, one, fmin, fmax, fabs}
use sibilla.Enums.Market.{Factor, MarketStatus}
use sibilla.Enums.Laws.{factor_key}
use sibilla.Schemas.Market.{Instrument, instrument_tradeable}

pub record InstrumentRegistry (W : Type 0) : Type 0 where
  pub by_epic : Dict Text (Instrument W)
  pub alias_index : Dict Text Text

abbrev pub index_aliases : List Text → Text → Dict Text Text → Dict Text Text
index_aliases [] epic index = index
index_aliases (a ∷ aliases) epic index = index_aliases aliases epic (insert (lower a) epic index)

module _ {W : Type 0} where
  abbrev pub empty : InstrumentRegistry W
  empty = record { by_epic = []; alias_index = [] }

  unfoldable pub add : Instrument W → InstrumentRegistry W → InstrumentRegistry W
  add i r = record {
    by_epic = insert i.epic i r.by_epic;
    alias_index =
        index_aliases i.aliases i.epic
          (insert (lower i.epic) i.epic (insert (lower i.name) i.epic r.alias_index));
  }

  unfoldable pub find : Text → InstrumentRegistry W → Option (Instrument W)
  find epic r = lookup epic r.by_epic

  unfoldable pub factor_vector : Text → InstrumentRegistry W → Dict Factor W
  unfolding find
  factor_vector epic r = elim (find epic r) [ none ↦ [] | some i ↦ i.factors ]

  abbrev pub contains : Factor → Dict Factor W → Bool
  contains f d = elim (lookup f d) [ none ↦ Bool.false | some _ ↦ Bool.true ]

module _ {W : Type 0} ⦃F : Float W⦄ where
  -- `sum(...)` over a list.
  abbrev pub fsum_from : W → List W → W
  fsum_from acc [] = acc
  fsum_from acc (x ∷ xs) = fsum_from (acc ⊕ x) xs

  abbrev pub fsum : List W → W
  fsum xs = fsum_from nought xs

  -- The order of a set's members is not specified: the keys of `a` come first here.
  abbrev pub joint_keys : Dict Factor W → Dict Factor W → List Factor
  joint_keys [] b = map (λ e. e.0) b
  joint_keys ((f, v) ∷ a) b = f ∷ joint_keys a (select (λ e. not (factor_key.beq e.0 f)) b)

  unfoldable pub dot : Dict Factor W → Dict Factor W → W
  dot a b = fsum (map (λ f. get f nought a ⊗ get f nought b) (joint_keys a b))

  unfoldable pub norm : Dict Factor W → W
  norm a = F.sqrt (fsum (map (λ e. e.1 ⊗ e.1) a))

  -- `correlation_proxy` of two vectors that are not empty.
  unfoldable pub cosine : Dict Factor W → Dict Factor W → W
  unfolding dot norm
  cosine a b =
      if norm a =F nought || norm b =F nought
      then nought
      else fmax (F.neg one) (fmin one (dot a b ⊘ (norm a ⊗ norm b)))

  unfoldable pub correlation_proxy : Dict Factor W → Dict Factor W → W
  correlation_proxy [] b = nought
  correlation_proxy (x ∷ a) [] = nought
  correlation_proxy (x ∷ a) (y ∷ b) = cosine (x ∷ a) (y ∷ b)

  unfoldable pub instruments : InstrumentRegistry W → List (Instrument W)
  instruments r = map (λ e. e.1) r.by_epic

  unfoldable pub tradeable : InstrumentRegistry W → List (Instrument W)
  unfolding instruments
  tradeable r = select instrument_tradeable (instruments r)

  -- The status alone is updated.
  unfoldable pub update_status : Text → MarketStatus → InstrumentRegistry W → InstrumentRegistry W
  unfolding find
  update_status epic status r = elim (find epic r) [
    | none ↦ r
    | some i ↦ record r { by_epic = insert epic (record i { market_status = status }) r.by_epic }
  ]

  -- The loop of `related`, before the sort.
  unfoldable pub related_among :
      Text → W → Dict Factor W → List (Instrument W) → List (Instrument W × W)
  unfolding correlation_proxy
  related_among epic min_overlap base [] = []
  related_among epic min_overlap base (i ∷ others) =
      let rest = related_among epic min_overlap base others in
      let score = correlation_proxy base i.factors in
      if i.epic =? epic
      then rest
      else (if min_overlap ≤? fabs score then (i, score) ∷ rest else rest)

  abbrev pub is_stronger : Instrument W × W → Instrument W × W → Bool
  is_stronger p q = F.neg (fabs p.1) ≤? F.neg (fabs q.1)

  unfoldable pub related : Text → W → InstrumentRegistry W → List (Instrument W × W)
  unfolding related_among instruments factor_vector
  related epic min_overlap r =
      sort_by is_stronger (related_among epic min_overlap (factor_vector epic r) (instruments r))
