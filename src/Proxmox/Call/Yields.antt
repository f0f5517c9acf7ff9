-- ===== src/Proxmox/Call/Yields.antt =====
-- src/proxmox/client.rs: what holds of a call's value where it ends well.
use moxui.Prelude.{ℕ, Option, some, ok, ◌≡◌, subst, arith, inl, inr}
use moxui.Prelude.Results.{reply-cases}
use moxui.Proxmox.Call.{ProxmoxClient, Call, done, ◌>>=◌}

pub record Yields {W A : Type 0} (P : A → Type 0) (m : Call W A) : Type 0 where
  pub yields : (d : Option ℕ) (w : W) (c : ProxmoxClient) (a : A) → (m d w c).2 ≡ some (ok a) → P a

module _ {W : Type 0} where
  pub any-Yields : {A : Type 0} (m : Call W A) → Yields (λ a. Unit {0}) m
  any-Yields m = record { yields = λ d w c a h. tt }

  pub done-Yields : {A : Type 0} (P : A → Type 0) (a : A) → P a → Yields {W = W} P (done a)
  done-Yields P a p = record {
    yields = λ d w c b h. let same : a ≡ b = ground (arith, h) in subst P same p;
  }

  pub bind-Yields :
      {A B : Type 0} (P : A → Type 0) (Q : B → Type 0) (m : Call W A) (f : A → Call W B)
      → Yields P m
      → ((a : A) → P a → Yields Q (f a))
      → Yields Q (m >>= f)
  unfolding ◌>>=◌
  bind-Yields P Q m f hm hf = record {
    yields = λ d w c b h. elim (reply-cases (m d w c).2) [
      | inl e ↦ let g = rw (◌>>=◌, e) at h in ground (arith, g)
      | inr (inl (a, e)) ↦
          let g = rw (◌>>=◌, e) at h in
          (hf a (hm.yields d w c a e)).yields d (m d w c).0 (m d w c).1 b g
      | inr (inr (x, e)) ↦ let g = rw (◌>>=◌, e) at h in ground (arith, g)
    ];
  }
