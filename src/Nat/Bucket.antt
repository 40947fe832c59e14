-- ===== src/Nat/Bucket.antt =====
-- One bucket of the hash table of 12-nat-yisong/nat.c, without and with a mapping of the flow.
use network_lab.Base.{ℕ, ◌≡◌, refl, Bool, true, false, List, [], ◌∷◌, ◌++◌, arith, Every}
use network_lab.Segment.{Segment}
use network_lab.Nat.{NatMapping, is_internal, has_internal, translate_bucket, touch, is_finished}

module _ (is_kept : Segment → Bool) (now : ℕ) (hit : NatMapping → Bool)
    (rewrite_by : NatMapping → Segment → Segment) (set_fin : NatMapping → NatMapping) where
  -- A bucket without a mapping of the flow stays as it is, and nothing is sent.
  pub translate_bucket_miss :
      (ms : List NatMapping) (ports : ℕ → ℕ) (seg : Segment)
      → Every (λ m. hit m ≡ false) ms
      → translate_bucket is_kept now hit rewrite_by set_fin ms ports seg
        ≡ record { bucket = ms; ports = ports; sent = []; fault = false }
  unfolding translate_bucket
  translate_bucket_miss [] ports seg h = refl
  translate_bucket_miss (m ∷ ms) ports seg h = rw (h.0, translate_bucket_miss ms ports seg h.1) refl

  -- In front of the first mapping of the flow nothing happens.
  pub translate_bucket_skip :
      (before ms : List NatMapping) (ports : ℕ → ℕ) (seg : Segment)
      → Every (λ m. hit m ≡ false) before
      → translate_bucket is_kept now hit rewrite_by set_fin (before ++ ms) ports seg ≡ (
          let rest = translate_bucket is_kept now hit rewrite_by set_fin ms ports seg in
          record rest { bucket = before ++ rest.bucket })
  unfolding translate_bucket
  translate_bucket_skip [] ms ports seg h = refl
  translate_bucket_skip (m ∷ before) ms ports seg h =
      rw (h.0, translate_bucket_skip before ms ports seg h.1) refl

  -- With one mapping of the flow in the bucket a packet that is kept is sent once.
  pub translate_bucket_one :
      (before : List NatMapping) (m : NatMapping) (after : List NatMapping) (ports : ℕ → ℕ)
      (seg : Segment)
      → Every (λ x. hit x ≡ false) before
      → hit m ≡ true
      → Every (λ x. hit x ≡ false) after
      → is_finished seg.tcp.flags (touch now set_fin seg.tcp.flags m) ≡ false
      → is_kept (rewrite_by m seg) ≡ true
      → translate_bucket is_kept now hit rewrite_by set_fin (before ++ m ∷ after) ports seg
        ≡ record {
          bucket = before ++ touch now set_fin seg.tcp.flags m ∷ after;
          ports = ports;
          sent = rewrite_by m seg ∷ [];
          fault = false;
        }
  unfolding translate_bucket
  translate_bucket_one before m after ports seg b h a live kept =
      rw
        (
          translate_bucket_skip before (m ∷ after) ports seg b,
          h,
          live,
          kept,
          translate_bucket_miss after ports (rewrite_by m seg) a,
        )
        refl

pub has_internal-Every :
    (saddr sport : ℕ) (ms : List NatMapping)
    → has_internal saddr sport ms ≡ false
    → Every (λ m. is_internal saddr sport m ≡ false) ms
unfolding has_internal
has_internal-Every saddr sport [] h = tt
has_internal-Every saddr sport (m ∷ ms) h =
    (ground arith, has_internal-Every saddr sport ms (ground arith))

pub has_internal-hit :
    (saddr sport : ℕ) (before : List NatMapping) (m : NatMapping) (after : List NatMapping)
    → is_internal saddr sport m ≡ true
    → has_internal saddr sport (before ++ m ∷ after) ≡ true
unfolding has_internal
has_internal-hit saddr sport [] m after h = rw h refl
has_internal-hit saddr sport (x ∷ before) m after h =
    ground (arith, has_internal-hit saddr sport before m after h)
