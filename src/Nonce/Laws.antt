-- ===== src/Nonce/Laws.antt =====
-- How long a nonce lives, when a user may ask for one, and what text a buffer yields.
use Prim.Native.String.{String}
use mathlib.Core.List.{reverse, reverse-cons}
use roadwatch.Prelude.{
  max, ℕ, ◌+◌, ◌*◌, ◌≤◌, ◌<◌, ◌≡◌, ◌↔◌, List, [], ◌∷◌, ◌++◌, Bool, true, false, leb, length, arith,
  All, All-append, Bool-cases, inl, inr, if◌then◌else◌,
}
use roadwatch.Prelude.Text.{Text}
use roadwatch.RegionCode.{trim, trim_start, is_space}
use roadwatch.Nonce.{
  create_nonce_record, is_nonce_fresh, get_time_remaining, can_generate_nonce, is_printable,
  ascii_loop, extract_ascii_text,
}

-- A nonce is fresh from the moment of issue for its time to live, both ends included, and the time
-- remaining is then the rest of it; later there is none.
pub create_nonce_record-fresh :
    (nonce : String) (ttl_seconds issued now : ℕ)
    → let r = create_nonce_record nonce ttl_seconds issued in
      ((is_nonce_fresh r.issued_at r.expires_at now ≡ true)
        ↔ ((issued ≤ now) × (now ≤ issued + ttl_seconds * 1000)))
      × (get_time_remaining r.expires_at now + now ≡ max now (issued + ttl_seconds * 1000))
unfolding create_nonce_record is_nonce_fresh get_time_remaining
create_nonce_record-fresh nonce ttl_seconds issued now =
    (((λ h. ground arith), λ h. ground arith), omega arith)

-- A user is allowed to ask exactly from one second after the last nonce on and under the quota.
pub can_generate_nonce_iff :
    (count last most now : ℕ)
    → ((can_generate_nonce count last most now).allowed ≡ true)
      ↔ ((last + 1000 ≤ now) × (count < most))
unfolding can_generate_nonce
can_generate_nonce_iff count last most now = ((λ h. ground arith), λ h. ground arith)

abbrev pub IsPrintable : ℕ → Type 0
IsPrintable c = (32 ≤ c) × (c ≤ 126)

if_All :
    (b : Bool) (xs ys : Text)
    → All IsPrintable xs
    → All IsPrintable ys
    → All IsPrintable (if b then xs else ys)
if_All true xs ys hx hy = hx
if_All false xs ys hx hy = hy

IsPrintable-step :
    (byte : ℕ) (run : Text)
    → All IsPrintable run
    → All IsPrintable (if is_printable byte then run ++ byte ∷ [] else [])
unfolding is_printable
IsPrintable-step byte run hr = elim (Bool-cases (is_printable byte)) [
  | inl e ↦ rw e (All-append IsPrintable run (byte ∷ []) hr (ground arith))
  | inr e ↦ rw e tt
]

ascii_loop-All :
    (bytes : List ℕ) (text run : Text)
    → All IsPrintable text
    → All IsPrintable run
    → All IsPrintable (ascii_loop text run bytes)
unfolding ascii_loop is_printable
ascii_loop-All [] text run ht hr = elim (Bool-cases (leb 3 (length run))) [
  | inl e ↦ rw e (All-append IsPrintable text run ht hr)
  | inr e ↦ rw e ht
]
ascii_loop-All (byte ∷ bytes) text run ht hr =
    ascii_loop-All bytes
      (if is_printable byte
        then text
        else if leb 3 (length run)
        then text ++ run ++ 32 ∷ []
        else text)
      (if is_printable byte then run ++ byte ∷ [] else [])
      (if_All (is_printable byte) _ _ ht (
        if_All (leb 3 (length run)) (text ++ run ++ 32 ∷ []) text
          (All-append IsPrintable (text ++ run) (32 ∷ []) (All-append IsPrintable text run ht hr)
            (ground arith))
          ht))
      (IsPrintable-step byte run hr)

trim_start-All : (cs : Text) → All IsPrintable cs → All IsPrintable (trim_start cs)
unfolding trim_start
trim_start-All [] h = tt
trim_start-All (c ∷ cs) (h, hs) =
    if_All (is_space c) (trim_start cs) (c ∷ cs) (trim_start-All cs hs) (h, hs)

reverse-All : (cs : Text) → All IsPrintable cs → All IsPrintable (reverse cs)
reverse-All [] h = tt
reverse-All (c ∷ cs) (h, hs) =
    rw (reverse-cons c cs)
      (All-append IsPrintable (reverse cs) (c ∷ []) (reverse-All cs hs) (h, tt))

-- Whatever bytes a buffer has, the text read from it is printable ASCII.
pub extract_ascii_text-All : (buffer : List ℕ) → All IsPrintable (extract_ascii_text buffer)
unfolding extract_ascii_text trim
extract_ascii_text-All buffer =
    reverse-All _
      (trim_start-All _ (reverse-All _ (trim_start-All _ (ascii_loop-All buffer [] [] tt tt))))
