-- ===== src/G711/Samples.antt =====
-- What the sample functions of mpf/codecs/g711/alaw.go and ulaw.go guarantee, by evaluation over
-- every byte and every 16-bit sample.
use go_mrcp.Prelude.{
  ℕ, ◌+◌, ◌*◌, ◌≤◌, ◌<◌, ◌≡◌, refl, ◌≢◌, ◌↔◌, Bool, true, not, ltb, leb, ◌==◌, ◌&&◌, if◌then◌else◌,
  all_from, on_bytes, on_bytes_sound, all_words, arith,
}
use go_mrcp.Prelude.Words.{abs16, dist16}
use go_mrcp.G711.Alaw.{encode_alaw_frame, decode_alaw_frame, alaw_to_ulaw_frame}
use go_mrcp.G711.Ulaw.{encode_ulaw_frame, decode_ulaw_frame, ulaw_to_alaw_frame}

alaw_round_trip : on_bytes (λ c. encode_alaw_frame (decode_alaw_frame c) == c) ≡ true
unfolding all_from encode_alaw_frame decode_alaw_frame
alaw_round_trip = refl

-- Every A-law byte is decoded to a sample that encodes back to it.
pub encode-decode_alaw_frame : (c : ℕ) → c < 256 → encode_alaw_frame (decode_alaw_frame c) ≡ c
encode-decode_alaw_frame c h = ground (arith, on_bytes_sound _ c alaw_round_trip h)

ulaw_round_trip :
    on_bytes (λ c. encode_ulaw_frame (decode_ulaw_frame c) == (if c == 0x7F then 0xFF else c))
    ≡ true
unfolding all_from encode_ulaw_frame decode_ulaw_frame
ulaw_round_trip = refl

-- Every mu-law byte is decoded to a sample that encodes back to it, except 0x7F, the negative zero,
-- which comes back as 0xFF, the positive zero.
pub encode-decode_ulaw_frame :
    (c : ℕ) → c < 256 → encode_ulaw_frame (decode_ulaw_frame c) ≡ (if c == 0x7F then 0xFF else c)
encode-decode_ulaw_frame c h = ground (arith, on_bytes_sound _ c ulaw_round_trip h)

-- A Boolean test of `a ≤ b` everywhere but at 0x8000, read as a statement.
except_lowest : ℕ → ℕ → ℕ → Bool
except_lowest x a b = if x == 0x8000 then not (leb a b) else leb a b

except_lowest_iff : (x a b : ℕ) → except_lowest x a b ≡ true → (a ≤ b) ↔ (x ≢ 0x8000)
unfolding except_lowest
except_lowest_iff x a b h = (λ p. ground arith, λ p. ground arith)

alaw_error : ℕ → Bool
unfolding except_lowest encode_alaw_frame decode_alaw_frame
alaw_error x =
    except_lowest x (32 * dist16 (decode_alaw_frame (encode_alaw_frame x)) x) (abs16 x + 256)

alaw_error_0 : all_from 0 16384 alaw_error ≡ true
unfolding all_from alaw_error
alaw_error_0 = refl

alaw_error_1 : all_from 16384 16384 alaw_error ≡ true
unfolding all_from alaw_error
alaw_error_1 = refl

alaw_error_2 : all_from 32768 16384 alaw_error ≡ true
unfolding all_from alaw_error
alaw_error_2 = refl

alaw_error_3 : all_from 49152 16384 alaw_error ≡ true
unfolding all_from alaw_error
alaw_error_3 = refl

alaw_error_all : (x : ℕ) → x < 65536 → alaw_error x ≡ true
alaw_error_all = all_words alaw_error alaw_error_0 alaw_error_1 alaw_error_2 alaw_error_3

-- A-law moves a sample by at most 1/32 of its level and 8 units exactly when the sample is not
-- -32768: that one sample is moved further.
pub alaw_error_bound_iff :
    (x : ℕ)
    → x < 65536
    → (32 * dist16 (decode_alaw_frame (encode_alaw_frame x)) x ≤ abs16 x + 256) ↔ (x ≢ 0x8000)
alaw_error_bound_iff x h = except_lowest_iff x _ _ (unfold alaw_error in alaw_error_all x h)

ulaw_error : ℕ → Bool
unfolding except_lowest encode_ulaw_frame decode_ulaw_frame
ulaw_error x =
    except_lowest x (32 * dist16 (decode_ulaw_frame (encode_ulaw_frame x)) x) (abs16 x + 132)

ulaw_error_0 : all_from 0 16384 ulaw_error ≡ true
unfolding all_from ulaw_error
ulaw_error_0 = refl

ulaw_error_1 : all_from 16384 16384 ulaw_error ≡ true
unfolding all_from ulaw_error
ulaw_error_1 = refl

ulaw_error_2 : all_from 32768 16384 ulaw_error ≡ true
unfolding all_from ulaw_error
ulaw_error_2 = refl

ulaw_error_3 : all_from 49152 16384 ulaw_error ≡ true
unfolding all_from ulaw_error
ulaw_error_3 = refl

ulaw_error_all : (x : ℕ) → x < 65536 → ulaw_error x ≡ true
ulaw_error_all = all_words ulaw_error ulaw_error_0 ulaw_error_1 ulaw_error_2 ulaw_error_3

-- Mu-law moves a sample by at most 1/32 of its level and 132/32 units exactly when the sample is
-- not -32768: that one sample is moved further.
pub ulaw_error_bound_iff :
    (x : ℕ)
    → x < 65536
    → (32 * dist16 (decode_ulaw_frame (encode_ulaw_frame x)) x ≤ abs16 x + 132) ↔ (x ≢ 0x8000)
ulaw_error_bound_iff x h = except_lowest_iff x _ _ (unfold ulaw_error in ulaw_error_all x h)

transcode_test : ℕ → Bool
unfolding decode_alaw_frame decode_ulaw_frame alaw_to_ulaw_frame ulaw_to_alaw_frame
transcode_test c =
    ltb (16 * dist16 (decode_ulaw_frame (alaw_to_ulaw_frame c)) (decode_alaw_frame c))
      (abs16 (decode_alaw_frame c))
    && leb (16 * dist16 (decode_alaw_frame (ulaw_to_alaw_frame c)) (decode_ulaw_frame c))
        (abs16 (decode_ulaw_frame c) + 128)

transcode_table : on_bytes transcode_test ≡ true
unfolding all_from transcode_test
transcode_table = refl

and-true : (a b c d : ℕ) → (ltb a b && leb c d) ≡ true → (a < b) × (c ≤ d)
and-true a b c d h = ground arith

-- The direct conversions between the two laws keep the level: A-law to mu-law within 1/16 of it,
-- and mu-law to A-law within 1/16 of it and 8 units.
pub transcode_bound :
    (c : ℕ)
    → c < 256
    → (16 * dist16 (decode_ulaw_frame (alaw_to_ulaw_frame c)) (decode_alaw_frame c)
        < abs16 (decode_alaw_frame c))
      × (16 * dist16 (decode_alaw_frame (ulaw_to_alaw_frame c)) (decode_ulaw_frame c)
          ≤ abs16 (decode_ulaw_frame c) + 128)
transcode_bound c h =
    and-true _ _ _ _ (unfold transcode_test in on_bytes_sound _ c transcode_table h)
