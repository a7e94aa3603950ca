-- ===== src/Etoro/Judge.antt =====
-- src/intelligence/etoro_judge.py: the gate on a catalyst. The answer of the language model, which is
-- no code of the repository, is an argument: an exception, no parsed answer, or a parsed one.
use sibilla.Base.{Text, text, Option, none, some, Bool, false, Result, ok, err}
use sibilla.Float.{Float, nought}

pub data VerdictDirection : Type 0 where
  buy none_ : VerdictDirection

pub record CatalystVerdict (W : Type 0) : Type 0 where
  pub has_catalyst : Bool
  pub direction : VerdictDirection
  pub confidence : W
  pub rationale : Text

module _ {W : Type 0} ⦃F : Float W⦄ where
  -- `CatalystVerdict(has_catalyst=False, rationale=...)`
  abbrev pub no_catalyst : Text → CatalystVerdict W
  no_catalyst why = record {
    has_catalyst = false;
    direction = VerdictDirection.none_;
    confidence = nought;
    rationale = why;
  }

  -- The exception's text, cut to 200 characters in the source, stands for itself.
  unfoldable pub judge_catalyst : Result Text (Option (CatalystVerdict W)) → CatalystVerdict W
  judge_catalyst (err message) = no_catalyst message
  judge_catalyst (ok none) = no_catalyst (text "unparsed_response")
  judge_catalyst (ok (some verdict)) = verdict
