-- ===== src/Arm64/State.antt =====
-- struct Verifier of src/arm64/verify.c, and its error reports.
use lfi_verifier.Prelude.{ℕ, Bool, true, String, Option, some, List, ◌∷◌, if◌then◌else◌}
use lfi_verifier.Options.{Options}
use lfi_verifier.Arm64.Inst.{Inst}

-- One call of the `err` callback: the address, the instruction that verr formats, the message.
pub record Report : Type 0 where
  pub at : ℕ
  pub inst : Option Inst
  pub msg : String

-- `reports` logs the calls of `opts.err`, the latest first. v->abort is never read or set.
pub record Verifier : Type 0 where
  pub failed : Bool
  pub addr : ℕ
  pub opts : Options
  pub x30_guarded : Bool
  pub reports : List Report

unfoldable pub verrmin : Option Inst → String → Verifier → Verifier
verrmin inst msg v =
    if v.opts.err
    then record v {
      failed = true;
      reports = record { at = v.addr; inst = inst; msg = msg } ∷ v.reports;
    }
    else record v { failed = true }

unfoldable pub verr : Inst → String → Verifier → Verifier
unfolding verrmin
verr inst msg v = verrmin (some inst) msg v

-- if (bad) verr(v, inst, msg);
unfoldable pub verr_if : Bool → Inst → String → Verifier → Verifier
unfolding verr
verr_if bad inst msg v = if bad then verr inst msg v else v

unfoldable pub set_guarded : Bool → Verifier → Verifier
set_guarded b v = record v { x30_guarded = b }
