-- ===== src/Start/Descriptors.antt =====
-- What the processor reads from the segment descriptors of student-distrib/kernel.c.
use unix_operation_system.Prelude.{ℕ, ◌+◌, ◌*◌, ◌^◌, ◌<◌, ◌≡◌, refl, arith}
use unix_operation_system.Start.{SegDesc, set_params, the_ldt_desc, the_tss_desc}

-- The base and the limit that the fields of a descriptor stand for
abbrev pub base_of : SegDesc → ℕ
base_of d = d.base_31_24 * 2 ^ 24 + d.base_23_16 * 2 ^ 16 + d.base_15_00

abbrev pub limit_of : SegDesc → ℕ
limit_of d = d.seg_lim_19_16 * 2 ^ 16 + d.seg_lim_15_00

-- A present descriptor of the kernel's own level
pub record Describes (addr lim type : ℕ) (d : SegDesc) : Type 0 where
  pub base : base_of d ≡ addr
  pub limit : limit_of d ≡ lim
  pub kind : (d.type ≡ type) × (d.sys ≡ 0) × (d.present ≡ 1) × (d.dpl ≡ 0)
  pub bytes : d.granularity ≡ 0

module _ (d : SegDesc) (addr lim : ℕ) (short : addr < 2 ^ 32) (small : lim < 2 ^ 20) where
  pub the_ldt_desc-Describes : Describes addr lim 2 (the_ldt_desc d addr lim)
  unfolding the_ldt_desc set_params
  the_ldt_desc-Describes = record {
    base = omega (arith, short);
    limit = omega (arith, small);
    kind = (refl, refl, refl, refl);
    bytes = refl;
  }

  pub the_tss_desc-Describes : Describes addr lim 9 (the_tss_desc d addr lim)
  unfolding the_tss_desc set_params
  the_tss_desc-Describes = record {
    base = omega (arith, short);
    limit = omega (arith, small);
    kind = (refl, refl, refl, refl);
    bytes = refl;
  }
