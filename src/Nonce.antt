-- ===== src/Nonce.antt =====
-- Server nonces, packages/core/src/nonce-service.ts: lifetimes and the limits on asking for one,
-- and the text that the image check reads out of a buffer.
pub mod Laws
mod Tests
use Prim.Native.String.{String}
use roadwatch.Prelude.{
  ℕ, ◌+◌, ◌*◌, ◌-◌, List, [], ◌∷◌, ◌++◌, Option, none, some, Bool, true, false, ◌&&◌, ltb, leb,
  length, if◌then◌else◌,
}
use roadwatch.Prelude.Text.{Text, codes, show}
use roadwatch.RegionCode.{trim}

pub record NonceRecord : Type 0 where
  pub nonce : String
  pub issued_at : ℕ
  pub expires_at : ℕ

-- `nonce` is what `generateNonce` drew.
unfoldable pub create_nonce_record : String → ℕ → ℕ → NonceRecord
create_nonce_record nonce ttl_seconds now = record {
  nonce = nonce;
  issued_at = now;
  expires_at = now + ttl_seconds * 1000;
}

unfoldable pub is_nonce_fresh : ℕ → ℕ → ℕ → Bool
is_nonce_fresh issued_at expires_at now = leb now expires_at && leb issued_at now

-- `Math.max(0, expires_at - nowMs)`, which is the truncated difference.
unfoldable pub get_time_remaining : ℕ → ℕ → ℕ
get_time_remaining expires_at now = expires_at - now

pub record RateCheck : Type 0 where
  pub allowed : Bool
  pub reason : Option Text
  pub backoff_ms : Option ℕ

-- `now - last` is negative where the last nonce lies in the future: then it is below 1000 too, and
-- the backoff 1000 - (now - last) is the difference written here.
unfoldable pub can_generate_nonce : ℕ → ℕ → ℕ → ℕ → RateCheck
can_generate_nonce count last max_per_minute now =
    if ltb now (last + 1000)
    then record {
      allowed = false;
      reason = some (codes "Rate limit: wait at least 1 second between nonce requests");
      backoff_ms = some (1000 + last - now);
    }
    else if leb max_per_minute count
    then record {
      allowed = false;
      reason = some (
          codes "Rate limit: maximum "
          ++ show max_per_minute
          ++ codes " nonce requests per minute");
      backoff_ms = some 60000;
    }
    else record { allowed = true; reason = none; backoff_ms = none }

is_printable : ℕ → Bool
is_printable byte = leb 32 byte && leb byte 126

-- The loop of `extractAsciiText` over the bytes, and the last run after it.
ascii_loop : Text → Text → List ℕ → Text
unfolding is_printable
ascii_loop text run [] = if leb 3 (length run) then text ++ run else text
ascii_loop text run (byte ∷ bytes) =
    ascii_loop
      (if is_printable byte
        then text
        else if leb 3 (length run)
        then text ++ run ++ 32 ∷ []
        else text)
      (if is_printable byte then run ++ byte ∷ [] else []) bytes

unfoldable pub extract_ascii_text : List ℕ → Text
unfolding ascii_loop
extract_ascii_text buffer = trim (ascii_loop [] [] buffer)
