-- ===== src/Filestorage/Image/Stored.antt =====
-- filestorage/image.go: what `NormalizeImage` returns.
use hockey_libs.Prelude.{
  ℕ, ◌+◌, ◌*◌, ◌^◌, ◌≤◌, ◌<◌, ◌≡◌, refl, sym, ap, subst, ◌∙◌, ◌⊎◌, inl, inr, pos, true, false, some,
  length, length-take, take, min, ltb, leb, leb_ℤ, ◌&&◌, pos_part, Bool-cases, Option-cases, arith,
}
use hockey_libs.Errors.{ret-inj, ret-ne-err, Result-cases, ret}
use hockey_libs.Format.Bytes.{Bytes}
use hockey_libs.Filestorage.Image.{
  ImageOptions, Reader, Codec, max_pixels_limit, with_defaults, read_to_end, limit_for,
  read_limited, read_all, fit_size, fit, encoded, convert, normalize_image,
}
use hockey_libs.Filestorage.Image.Bounds.{fit_size_le}

-- The upload was read to its end, and it was not larger than allowed.
Whole : ImageOptions → Reader → Bytes → Type 0
Whole opts r raw =
    (raw ≡ r.content)
    × ((leb_ℤ opts.max_bytes (pos 0) ≡ true) ⊎ (length raw ≤ pos_part opts.max_bytes))

read_to_end_ret : (r : Reader) (raw : Bytes) → read_to_end r ≡ ret raw → raw ≡ r.content
read_to_end_ret r raw h = elim (Option-cases r.failure) [
  | inl n ↦ sym (ret-inj r.content raw (rw n at h))
  | inr (e, n) ↦ absurd (ret-ne-err raw e (rw n at h))
]

read_limited_ret :
    (r : Reader) (n : ℕ) (got : Bytes)
    → read_limited r n ≡ ret got
    → length got < n
    → got ≡ r.content
read_limited_ret r n got h l = elim (Bool-cases (leb n (length r.content))) [
  | inl t ↦
      let same = ret-inj (take n r.content) got (rw t at h) in
      absurd (ground (arith, ap length same, length-take n r.content))
  | inr t ↦ read_to_end_ret r got (rw t at h)
]

limited-Whole :
    (opts : ImageOptions) (r : Reader) (raw : Bytes)
    → pos_part opts.max_bytes + 1 < 2 ^ 63
    → leb_ℤ opts.max_bytes (pos 0) ≡ false
    → read_all opts r ≡ ret raw
    → Whole opts r raw
unfolding Whole read_all
limited-Whole opts r raw b t h =
    let n : limit_for (pos_part opts.max_bytes) ≡ pos_part opts.max_bytes + 1 = ground arith in
    elim (Result-cases (read_limited r (limit_for (pos_part opts.max_bytes)))) [
      | inl (e, g) ↦ absurd (ret-ne-err raw _ (rw (read_all, t, g) at h))
      | inr (got, g) ↦ elim (Bool-cases (ltb (pos_part opts.max_bytes) (length got))) [
        | inl u ↦ absurd (ret-ne-err raw _ (rw (read_all, t, g, u) at h))
        | inr u ↦
            let same = ret-inj got raw (rw (read_all, t, g, u) at h) in
            let read = read_limited_ret r _ got g (rw n (ground arith)) in
            (
              sym same ∙ read,
              inr (subst (λ x. length x ≤ pos_part opts.max_bytes) same (ground arith)),
            )
      ]
    ]

read_all-Whole :
    (opts : ImageOptions) (r : Reader) (raw : Bytes)
    → pos_part opts.max_bytes + 1 < 2 ^ 63
    → read_all opts r ≡ ret raw
    → Whole opts r raw
unfolding read_all Whole
read_all-Whole opts r raw b h = elim (Bool-cases (leb_ℤ opts.max_bytes (pos 0))) [
  | inl t ↦ elim (Result-cases (read_to_end r)) [
    | inl (e, n) ↦ absurd (ret-ne-err raw _ (rw (read_all, t, n) at h))
    | inr (got, n) ↦
        (sym (ret-inj got raw (rw (read_all, t, n) at h)) ∙ read_to_end_ret r got n, inl t)
  ]
  | inr t ↦ limited-Whole opts r raw b t h
]

module _ {Image : Type 0} (codec : Codec Image) where
  -- What a result is: the JPEG of an image that fits, made of the whole upload.
  pub record Normalized (options : ImageOptions) (r : Reader) (out : Bytes) : Type 0 where
    pub image : Image
    pub stored : Image
    pub decodes : codec.decode r.content ≡ some image
    pub encodes : codec.encode (with_defaults options).quality stored ≡ ret out
    pub small_file :
        (leb_ℤ options.max_bytes (pos 0) ≡ true) ⊎ (length r.content ≤ pos_part options.max_bytes)
    pub pixels : (codec.bounds image).0 * (codec.bounds image).1 ≤ max_pixels_limit
    pub width :
        (codec.bounds stored).0
        ≤ min (codec.bounds image).0 (pos_part (with_defaults options).max_side)
    pub height :
        (codec.bounds stored).1
        ≤ min (codec.bounds image).1 (pos_part (with_defaults options).max_side)

  bounds-fit :
      (image : Image) (side : ℕ)
      → codec.bounds (fit codec image side) ≡ fit_size (codec.bounds image) side
  unfolding fit fit_size
  bounds-fit image side =
      elim (Bool-cases (leb (codec.bounds image).0 side && leb (codec.bounds image).1 side)) [
        | inl t ↦ rw (fit, fit_size, t) refl
        | inr t ↦ rw (fit, t) (codec.bounds-scale image _ _)
      ]

  encoded_ret :
      (opts : ImageOptions) (image : Image) (out : Bytes)
      → encoded codec opts image ≡ ret out
      → codec.encode opts.quality (fit codec image (pos_part opts.max_side)) ≡ ret out
  encoded_ret opts image out h =
      elim (Result-cases (codec.encode opts.quality (fit codec image (pos_part opts.max_side)))) [
        | inl (e, n) ↦ absurd (ret-ne-err out _ (rw (encoded, n) at h))
        | inr (got, n) ↦ n ∙ (rw (encoded, n) at h)
      ]

  Converted : ImageOptions → Bytes → Bytes → Type 0
  Converted opts raw out =
      (image : Image) × (codec.decode raw ≡ some image)
      × ((codec.bounds image).0 * (codec.bounds image).1 ≤ max_pixels_limit)
      × (encoded codec opts image ≡ ret out)

  convert-Converted :
      (opts : ImageOptions) (raw out : Bytes)
      → convert codec opts raw ≡ ret out
      → Converted opts raw out
  unfolding convert Converted
  convert-Converted opts raw out h = elim (Option-cases (codec.decode_config raw)) [
    | inl c ↦ absurd (ret-ne-err out _ (rw (convert, c) at h))
    | inr ((width, height), c) ↦ elim (Bool-cases (ltb max_pixels_limit (width * height))) [
      | inl p ↦ absurd (ret-ne-err out _ (rw (convert, c, p) at h))
      | inr p ↦ elim (Option-cases (codec.decode raw)) [
        | inl d ↦ absurd (ret-ne-err out _ (rw (convert, c, p, d) at h))
        | inr (image, d) ↦
            let size = codec.config_agrees raw (width, height) image c d in
            (
              image,
              d,
              subst (λ b. b.0 * b.1 ≤ max_pixels_limit) (sym size) (ground arith),
              rw (convert, c, p, d) at h,
            )
      ]
    ]
  ]

  -- An upload whose size limit is below the greatest int64: if `NormalizeImage` returns a file, it is
  -- the JPEG of an image that fits into the square of the longest side allowed and is not larger than
  -- the one decoded from the whole upload, which kept the limits of bytes and of pixels.
  pub normalize_image-Normalized :
      (r : Reader) (options : ImageOptions) (out : Bytes)
      → pos_part options.max_bytes + 1 < 2 ^ 63
      → normalize_image codec r options ≡ ret out
      → Normalized options r out
  unfolding normalize_image Whole Converted
  normalize_image-Normalized r options out b h =
      elim (Result-cases (read_all (with_defaults options) r)) [
        | inl (e, n) ↦ absurd (ret-ne-err out e (rw (normalize_image, n) at h))
        | inr (raw, n) ↦
            let (same, small) = read_all-Whole (with_defaults options) r raw b n in
            let (image, d, p, e) =
              convert-Converted (with_defaults options) raw out (rw (normalize_image, n) at h) in
            let side = pos_part (with_defaults options).max_side in
            let size = bounds-fit image side in
            let (w, t) = fit_size_le (codec.bounds image).0 (codec.bounds image).1 side in
            record {
              image = image;
              stored = fit codec image side;
              decodes = ap codec.decode (sym same) ∙ d;
              encodes = encoded_ret (with_defaults options) image out e;
              small_file =
                  subst
                    (λ x.
                      (leb_ℤ options.max_bytes (pos 0) ≡ true)
                      ⊎ (length x ≤ pos_part options.max_bytes))
                    same small;
              pixels = p;
              width = subst (λ x. x.0 ≤ min (codec.bounds image).0 side) (sym size) w;
              height = subst (λ x. x.1 ≤ min (codec.bounds image).1 side) (sym size) t;
            }
      ]
