-- ===== src/Ssdp/Engine/Hosts.antt =====
-- cotton-ssdp/src/engine.rs: rewrite_host on the parts of a URL.
use cotton.Prelude.{
  ℕ, suc, ◌+◌, ◌≤◌, ◌<◌, ◌≡◌, refl, sym, ap, ◌∙◌, Bool, true, false, ◌||◌, Option, none, some, [],
  ◌∷◌, ◌++◌, append_assoc, length, take, drop, length-append, take_exact, drop_exact, drop-drop,
  ◌==◌, ltb, arith,
}
use cotton.Prelude.Bytes.{Bytes, codes}
use cotton.Ssdp.Text.{starts_with, find, map_suc}
use cotton.Ssdp.Engine.Url.{with_path, rewrite_host}

abbrev pub has : ℕ → Bytes → Bool
has c [] = false
has c (b ∷ s) = b == c || has c s

has-append :
    (s t : Bytes) → has b'/' s ≡ false → has b'/' t ≡ false → has b'/' (s ++ b':' ∷ t) ≡ false
has-append [] t h g = g
has-append (b ∷ s) t h g = ground (arith, has-append s t (ground arith) g)

starts_with_itself : (t r : Bytes) → starts_with t (t ++ r) ≡ true
starts_with_itself [] r = refl
starts_with_itself (c ∷ t) r = ground (arith, starts_with_itself t r)

not_found_at : (c b : ℕ) (t s : Bytes) → (b == c) ≡ false → starts_with (c ∷ t) (b ∷ s) ≡ false
not_found_at c b t s h = rw h refl

-- A text is found behind a part that does not have its first byte.
find-append :
    (c : ℕ) (t s r : Bytes) → has c s ≡ false → find (c ∷ t) (s ++ ((c ∷ t) ++ r)) ≡ some (length s)
unfolding find
find-append c t [] r h = rw (starts_with_itself (c ∷ t) r) refl
find-append c t (b ∷ s) r h =
    rw (not_found_at c b t (s ++ ((c ∷ t) ++ r)) (ground arith), find-append c t s r (ground arith))
      refl

find_nowhere : (c : ℕ) (t s : Bytes) → has c s ≡ false → find (c ∷ t) s ≡ none
unfolding find
find_nowhere c t [] h = refl
find_nowhere c t (b ∷ s) h =
    rw (not_found_at c b t s (ground arith), find_nowhere c t s (ground arith)) refl

-- Where something is, if it is anywhere: at an offset or behind it.
data FoundFrom (n : ℕ) : Option ℕ → Type 0 where
  nowhere : FoundFrom n none
  from : (m : ℕ) → n ≤ m → FoundFrom n (some m)

from_suc : {n : ℕ} {r : Option ℕ} → FoundFrom n r → FoundFrom (suc n) (map_suc r)
from_suc nowhere = nowhere
from_suc (from m h) = from (suc m) (omega arith)

found_somewhere : (r : Option ℕ) → FoundFrom 0 r
found_somewhere none = nowhere
found_somewhere (some m) = from m (omega arith)

find-FoundFrom :
    (c : ℕ) (t s r : Bytes) → has c s ≡ false → FoundFrom (length s) (find (c ∷ t) (s ++ r))
unfolding find
find-FoundFrom c t [] r h = found_somewhere _
find-FoundFrom c t (b ∷ s) r h =
    rw (not_found_at c b t (s ++ r) (ground arith))
      (from_suc (find-FoundFrom c t s r (ground arith)))

-- What stands behind the host: a path, perhaps with a port before it.
pub data Tail : Bytes → Type 0 where
  path : (p : Bytes) → Tail (b'/' ∷ p)
  port : (q p : Bytes) → has b'/' q ≡ false → Tail (b':' ∷ (q ++ b'/' ∷ p))

abbrev pub url_of : Bytes → Bytes → Bytes
url_of scheme rest = scheme ++ (codes "://" ++ rest)

module _ (scheme : Bytes) where
  prefix_length : length (scheme ++ codes "://") ≡ length scheme + 3
  prefix_length = length-append scheme (codes "://")

  -- The parts of a URL from which the new one is put together.
  front_of_url :
      (rest : Bytes) → take (length scheme + 3) (url_of scheme rest) ≡ scheme ++ codes "://"
  front_of_url rest =
      ap (take (length scheme + 3)) (sym (append_assoc scheme (codes "://") rest))
      ∙ take_exact (length scheme + 3) (scheme ++ codes "://") rest prefix_length

  rest_of_url : (rest : Bytes) → drop (length scheme + 3) (url_of scheme rest) ≡ rest
  rest_of_url rest =
      ap (drop (length scheme + 3)) (sym (append_assoc scheme (codes "://") rest))
      ∙ drop_exact (length scheme + 3) (scheme ++ codes "://") rest prefix_length

  tail_of_url :
      (host tail : Bytes)
      → drop (length host + length scheme + 3) (url_of scheme (host ++ tail)) ≡ tail
  tail_of_url host tail =
      let e : length host + length scheme + 3 ≡ (length scheme + 3) + length host = omega arith in
      rw
        (
          e,
          sym (drop-drop (length host) (length scheme + 3) (url_of scheme (host ++ tail))),
          rest_of_url (host ++ tail),
        )
        (drop_exact (length host) host tail refl)

  joined_url :
      (host ip tail : Bytes)
      → take (length scheme + 3) (url_of scheme (host ++ tail))
          ++ (ip ++ drop (length host + length scheme + 3) (url_of scheme (host ++ tail)))
        ≡ url_of scheme (ip ++ tail)
  joined_url host ip tail =
      rw (front_of_url (host ++ tail), tail_of_url host tail)
        (append_assoc scheme (codes "://") (ip ++ tail))

  host_before_path :
      (host ip p : Bytes) (r : Option ℕ)
      → FoundFrom (length host) r
      → with_path (url_of scheme (host ++ b'/' ∷ p)) (length scheme) ip (length host) r
        ≡ url_of scheme (ip ++ b'/' ∷ p)
  host_before_path host ip p _ nowhere = joined_url host ip (b'/' ∷ p)
  host_before_path host ip p _ (from m h) =
      let e : ltb m (length host) ≡ false = ground arith in rw e (joined_url host ip (b'/' ∷ p))

  host_before_port :
      (host ip q p : Bytes) (slash : ℕ)
      → length host < slash
      → with_path
          (url_of scheme (host ++ b':' ∷ (q ++ b'/' ∷ p)))
          (length scheme)
          ip
          slash
          (some (length host))
        ≡ url_of scheme (ip ++ b':' ∷ (q ++ b'/' ∷ p))
  host_before_port host ip q p slash h =
      let e : ltb (length host) slash ≡ true = ground arith in
      rw e (joined_url host ip (b':' ∷ (q ++ b'/' ∷ p)))

  slash_after_port :
      (host q p : Bytes)
      → has b'/' host ≡ false
      → has b'/' q ≡ false
      → find (codes "/") (host ++ b':' ∷ (q ++ b'/' ∷ p)) ≡ some (length (host ++ b':' ∷ q))
  slash_after_port host q p h g =
      ap (find (codes "/")) (sym (append_assoc host (b':' ∷ q) (b'/' ∷ p)))
      ∙ find-append b'/' [] (host ++ b':' ∷ q) p (has-append host q h g)

  -- In a URL whose scheme has no colon and whose host has neither a colon nor a slash, with a path
  -- and perhaps a port, rewrite_host puts the address in the place of the host and keeps the rest.
  pub rewrite_host_lem :
      (host ip tail : Bytes)
      → has b':' scheme ≡ false
      → has b':' host ≡ false
      → has b'/' host ≡ false
      → Tail tail
      → rewrite_host (url_of scheme (host ++ tail)) ip ≡ url_of scheme (ip ++ tail)
  unfolding rewrite_host
  rewrite_host_lem host ip _ s c h (path p) =
      rw
        (
          rewrite_host,
          find-append b':' (codes "//") scheme (host ++ b'/' ∷ p) s,
          rest_of_url (host ++ b'/' ∷ p),
          find-append b'/' [] host p h,
        )
        (rw (rest_of_url (host ++ b'/' ∷ p))
          (host_before_path host ip p _ (find-FoundFrom b':' [] host (b'/' ∷ p) c)))
  rewrite_host_lem host ip _ s c h (port q p g) =
      rw
        (
          rewrite_host,
          find-append b':' (codes "//") scheme (host ++ b':' ∷ (q ++ b'/' ∷ p)) s,
          rest_of_url (host ++ b':' ∷ (q ++ b'/' ∷ p)),
          slash_after_port host q p h g,
        )
        (rw
          (rest_of_url (host ++ b':' ∷ (q ++ b'/' ∷ p)), find-append b':' [] host (q ++ b'/' ∷ p) c)
          (host_before_port host ip q p _ (omega (arith, length-append host (b':' ∷ q)))))

  -- Without a slash behind the scheme, all that stands there is replaced, a port too.
  rewrite_host_without_path :
      (rest ip : Bytes)
      → has b':' scheme ≡ false
      → has b'/' rest ≡ false
      → rewrite_host (url_of scheme rest) ip ≡ url_of scheme ip
  unfolding rewrite_host
  rewrite_host_without_path rest ip s h =
      rw
        (
          rewrite_host,
          find-append b':' (codes "//") scheme rest s,
          rest_of_url rest,
          find_nowhere b'/' [] rest h,
          front_of_url rest,
        )
        (append_assoc scheme (codes "://") ip)
