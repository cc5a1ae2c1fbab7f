-- ===== src/Gateway/Spelling.antt =====
-- kernel/gateway.py: the case of a request, and the space around its texts.
use context_control_plane.Base.{String, ◌≡◌, refl, inl, inr, arith, Bool-cases}
use context_control_plane.Python.Text.{strip, lower, lower_char, or_else, is_empty}
use context_control_plane.Python.Text.Laws.{strip_idem}
use context_control_plane.Python.Text.Case.{lower-strip_idem}
use context_control_plane.Gateway.Profile.{GatewayPolicyProfile}
use context_control_plane.Gateway.Evaluate.{
  Request, normalized, context_of, evaluate_gateway_policy,
}

or_else-fixed :
    (t d : String)
    → lower (strip t) ≡ t
    → lower (strip d) ≡ d
    → or_else (lower (strip (or_else t d))) d ≡ or_else t d
unfolding or_else
or_else-fixed t d ht hd = elim (Bool-cases (is_empty t)) [
  | inl none_given ↦ rw none_given (rw hd (ground arith))
  | inr given ↦ rw given (rw ht (rw given))
]

normalized-clean :
    (v d : String) → lower (strip d) ≡ d → normalized (lower (strip v)) d ≡ normalized v d
unfolding normalized or_else
normalized-clean String.[] d hd = unfold strip lower in refl
normalized-clean (String.◌∷◌ c s) d hd =
    or_else-fixed (lower (strip (String.◌∷◌ c s))) d (lower-strip_idem (String.◌∷◌ c s)) hd

-- The request in lower case and without the space around its texts; the case of the operation stays.
pub clean : Request → Request
clean r = record {
  access = lower (strip r.access);
  classification = lower (strip r.classification);
  mode = lower (strip r.mode);
  operation = strip r.operation;
}

context_of-clean :
    (p : GatewayPolicyProfile) (r : Request) → context_of p (clean r) ≡ context_of p r
unfolding context_of clean
context_of-clean p r = cc (
  normalized-clean r.access "read" (unfold lower lower_char strip in refl),
  normalized-clean r.classification "internal" (unfold lower lower_char strip in refl),
  normalized-clean r.mode "connect" (unfold lower lower_char strip in refl),
  strip_idem r.operation,
)

-- Neither the case of the access, the classification and the mode of a request, nor the space around
-- any of its four texts, changes the answer: the whole decision, or the error, is the same.
pub evaluate-clean :
    (p : GatewayPolicyProfile) (r : Request)
    → evaluate_gateway_policy p (clean r) ≡ evaluate_gateway_policy p r
unfolding evaluate_gateway_policy
evaluate-clean p r = rw context_of-clean
