-- ===== src/Options.antt =====
-- src/include/lfiv.h: the options of a verifier.
use lfi_verifier.Prelude.{◌≡◌, ◌⊎◌, inl, inr, sym, ◌∙◌, Bool, true, false}

pub data BoxType : Type 0 where
  box_full box_stores : BoxType

-- `err` is whether the callback is set; what it is called with is the report log of a verifier.
pub record Options : Type 0 where
  pub box : BoxType
  pub no_bdd : Bool
  pub ctxreg : Bool
  pub err : Bool

-- v->opts->box == LFI_BOX_STORES
abbrev pub is_stores : BoxType → Bool
is_stores box_full = false
is_stores box_stores = true

-- The second options ask no more than the first: as much of the context register, and no more than a
-- full sandbox or as much of the type.
pub record Relaxes (opts opts' : Options) : Type 0 where
  pub same_ctxreg : opts'.ctxreg ≡ opts.ctxreg
  pub box : (opts.box ≡ box_full) ⊎ (opts'.box ≡ opts.box)

pub Relaxes-stores :
    {opts opts' : Options} → Relaxes opts opts' → opts.box ≡ box_stores → opts'.box ≡ box_stores
Relaxes-stores r h = elim r.box [ inl e ↦ absurd (cc (sym e ∙ h)) | inr e ↦ e ∙ h ]
