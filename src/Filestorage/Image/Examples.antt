-- ===== src/Filestorage/Image/Examples.antt =====
-- Images that are their size: a file of two bytes holds an image of so many pixels.
use hockey_libs.Prelude.{
  ℕ, ◌*◌, ◌≤◌, ◌<◌, ◌≡◌, ◌↔◌, refl, min, pos, Option, none, some, [], ◌∷◌, arith,
}
use hockey_libs.Errors.{ret}
use hockey_libs.Format.Bytes.{Bytes}
use hockey_libs.Filestorage.Image.{
  ImageOptions, Reader, Codec, read_all, fit_size, fit, convert, normalize_image,
}
use hockey_libs.Filestorage.Image.Bounds.{fit_size_bounds}
use hockey_libs.Filestorage.Image.Stored.{Normalized, normalize_image-Normalized}

abbrev size_of : Bytes → Option (ℕ × ℕ)
size_of (w ∷ h ∷ []) = some (w, h)
size_of _ = none

agrees :
    (raw : Bytes) (config : ℕ × ℕ) (image : ℕ × ℕ)
    → size_of raw ≡ some config
    → size_of raw ≡ some image
    → image ≡ config
agrees raw config image h k = cc

abbrev sizes : Codec (ℕ × ℕ)
sizes = record {
  decode_config = size_of;
  decode = size_of;
  bounds = λ i. i;
  scale = λ i w h. (w, h);
  encode = λ q i. ret (i.0 ∷ i.1 ∷ []);
  config_agrees = agrees;
  bounds-scale = λ i w h. refl;
}

abbrev upload : Reader
upload = record { content = 200 ∷ 100 ∷ []; failure = none }

abbrev options : ImageOptions
options = record { max_bytes = pos 10; max_side = pos 50; quality = pos 0 }

normalize_test : normalize_image sizes upload options ≡ ret (50 ∷ 25 ∷ [])
unfolding normalize_image read_all convert fit fit_size
normalize_test = refl

-- A very narrow image loses its width.
narrow_test : fit_size (1, 1000) 512 ≡ (0, 512)
unfolding fit_size
narrow_test = refl

normalize_image-Normalized_example : Normalized sizes options upload (50 ∷ 25 ∷ [])
normalize_image-Normalized_example =
    normalize_image-Normalized sizes upload options (50 ∷ 25 ∷ []) (omega arith) normalize_test

fit_size_bounds_example :
    ((fit_size (1, 1000) 512).0 ≤ min 1 512)
    × ((fit_size (1, 1000) 512).1 ≤ min 1000 512)
    × (((fit_size (1, 1000) 512).0 ≡ 0) ↔ ((512 < 1000) × (1 * 512 < 1000)))
    × (((fit_size (1, 1000) 512).1 ≡ 0) ↔ ((512 < 1) × (1000 * 512 < 1)))
fit_size_bounds_example = fit_size_bounds 1 1000 512 (omega arith) (omega arith) (omega arith)
