-- ===== src/X64/State.antt =====
-- struct Verifier of src/x64/verify.c, and its error reports.
use lfi_verifier.Prelude.{ℕ, Bool, true, String, Option, none, some, List, ◌∷◌, if◌then◌else◌}
use lfi_verifier.Options.{Options}
use lfi_verifier.X64.Inst.{Inst}

-- One call of the `err` callback: the address, the instruction that verr formats, the message.
pub record Report : Type 0 where
  pub at : ℕ
  pub inst : Option Inst
  pub msg : String

-- `reports` logs the calls of `opts.err`, the latest first.
pub record Verifier : Type 0 where
  pub failed : Bool
  pub aborted : Bool  -- v->abort
  pub addr : ℕ
  pub opts : Options
  pub bundlesize : ℕ
  pub reports : List Report

unfoldable pub verrmin : Option Inst → String → Verifier → Verifier
verrmin inst msg v =
    if v.opts.err
    then record v {
      failed = true;
      reports = record { at = v.addr; inst = inst; msg = msg } ∷ v.reports;
    }
    else record v { failed = true }

unfoldable pub verr : Inst → String → Verifier → Verifier
unfolding verrmin
verr inst msg v = verrmin (some inst) msg v

-- if (bad) verr(v, inst, msg);
unfoldable pub verr_if : Bool → Inst → String → Verifier → Verifier
unfolding verr
verr_if bad inst msg v = if bad then verr inst msg v else v

-- if (bad) verrmin(v, msg);
unfoldable pub unknown : Verifier → Verifier
unfolding verrmin
unknown v = verrmin none "unknown instruction" v
