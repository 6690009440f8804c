-- ===== src/Netblk/Readcache.antt =====
-- `netblk_backend_readcache` (src/netblk/cache_backend.cpp): a backend that keeps what it reads from
-- another one in a cache. The look-up of the sizes in the options, a JSON object, is not here: they
-- are arguments.
use nanodistro.Base.{
  ◌+◌, ◌≤◌, ◌^◌, ℕ, ◌-◌, ◌%◌, ◌<◌, min, Bool, true, not, if◌then◌else◌, Bytes, Result, ok, throw,
  invalid_argument, ◌>>=◌, >>=-ok, ◌≡◌, refl, sym, subst, ◌∙◌, arith, inl, inr, Bool-cases,
}
use nanodistro.Netblk.Backend.{Backend, Memory, can_access, s_iroth}
use nanodistro.Netblk.Backend.Retry.{Serves}
use nanodistro.Netblk.Cache.{Cache, Action, new_cache, init, cached_read, cache_range, load_from}
use nanodistro.Netblk.Cache.Invariant.{Geometry, IsValid, Post}
use nanodistro.Netblk.Cache.Start.{made, init-IsValid}
use nanodistro.Netblk.Cache.Read.{cached_read-image}

-- The object is the cache that a method leaves; where it throws, there is none.
unfoldable constructed : {S : Type 0} → Result (Unit {0}) × Cache S → Result (Cache S)
constructed (ok u, c) = ok c
constructed (throw e, c) = throw e

module _ {S : Type 0} (b : Backend S) where
  -- The constructor; the flag says whether `mmap` succeeds.
  unfoldable pub new_readcache : S → ℕ → ℕ → ℕ → Bool → Result (Cache S)
  unfolding constructed
  new_readcache s max_io_sector sector page mapping =
      new_cache s max_io_sector sector page >>= (λ c.
        if not (can_access b s_iroth)
        then throw invalid_argument
        else constructed (init b mapping c))

  unfoldable pub read : ℕ → ℕ → Action S Bytes
  read offset size c = cached_read b offset size c

  unfoldable pub prefetch : ℕ → ℕ → Action S (Unit {0})
  prefetch offset size c = cache_range b offset size c

constructed-ok :
    {S : Type 0} (r : Result (Unit {0}) × Cache S) (c : Cache S)
    → constructed r ≡ ok c
    → ok r.1 ≡ ok c
unfolding constructed
constructed-ok (ok u, c') c h = h
constructed-ok (throw e, c') c h = absurd (ground (arith, h))

module _ {S : Type 0} (image : Memory) (g : Geometry) (b : Backend S) where
  -- A read cache that is constructed over a backend with as many bytes as the image, at least one,
  -- is valid.
  new_readcache-IsValid :
      (s : S) (page : ℕ) (c : Cache S)
      → b.get_size ≡ g.size
      → 0 < g.size
      → new_readcache b s g.max_io g.sector page true ≡ ok c
      → IsValid image g c
  unfolding new_readcache
  new_readcache-IsValid s page c size some_bytes h =
      let (c0, made_c0, h') =
        >>=-ok (new_cache s g.max_io g.sector page)
          (λ (c : Cache S).
            if not (can_access b s_iroth)
            then throw invalid_argument
            else constructed (init b true c))
          c h in
      let (done, keeps) = init-IsValid image g b s page c0 size some_bytes made_c0 in
      elim (Bool-cases (not (can_access b s_iroth))) [
        | inl e ↦ absurd (ground (arith, h', e))
        | inr e ↦
            let left : constructed (init b true c0) ≡ ok c = sym (rw e refl) ∙ h' in
            subst (IsValid image g)
              (made (init b true c0).1 c (constructed-ok (init b true c0) c left)) keeps
      ]

  -- For a sector size that is a power of two: whatever is read at a sector boundary through a read
  -- cache that was just constructed is the image, as many bytes as were asked for and are there, or
  -- the read throws. The cache stays valid, so that this holds for the next read as well. The backend serves the image, and has as many
  -- bytes as it, at least one. The image's size and one sector are together at most 2 ^ 64, and so are
  -- its sectors and `max_io_sector`.
  pub new_readcache-read :
      (h : Serves image b) (w : g.total + g.max_io ≤ 2 ^ 64) (s : S) (page offset size : ℕ)
      (c : Cache S)
      → b.get_size ≡ g.size
      → 0 < g.size
      → new_readcache b s g.max_io g.sector page true ≡ ok c
      → offset % g.sector ≡ 0
      → Post image g
          (λ bytes c'.
            IsValid image g c' × (bytes ≡ load_from image offset (min size (g.size - offset))))
          (read b offset size c)
  unfolding read
  new_readcache-read h w s page offset size c same some_bytes e aligned =
      cached_read-image image g b h w offset size c
        (new_readcache-IsValid s page c same some_bytes e) aligned
