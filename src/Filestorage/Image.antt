-- ===== src/Filestorage/Image.antt =====
-- filestorage/image.go: an uploaded image is checked, made to fit into a square and encoded as a JPEG.
-- The decoders, the scaling and the encoder are parameters.
pub mod Bounds
pub mod Stored
mod Examples
use hockey_libs.Prelude.{
  ℕ, ◌+◌, ◌*◌, ◌/◌, ◌^◌, ◌≡◌, ℤ, pos, Bool, true, false, not, ◌&&◌, Option, none, some, List,
  length, take, ltb, leb, leb_ℤ, pos_part, if◌then◌else◌,
}
use hockey_libs.Errors.{Err, Sentinel, sentinel, wrapped, Result, ret, err}
use hockey_libs.Format.Bytes.{Bytes}

abbrev pub default_max_side : ℤ
default_max_side = pos 512

abbrev pub default_quality : ℤ
default_quality = pos 85

abbrev pub max_pixels_limit : ℕ
max_pixels_limit = 50000000

pub record ImageOptions : Type 0 where
  pub max_bytes : ℤ
  pub max_side : ℤ
  pub quality : ℤ

-- A reader: the bytes that it gives, and its error after them, if it ends by one.
pub record Reader : Type 0 where
  pub content : Bytes
  pub failure : Option Err

-- image, image/jpeg and golang.org/x/image/draw. `bounds` are width and height; the header of a file
-- tells the size of the image in it, and a scaled image has the size asked for.
pub record Codec (Image : Type 0) : Type 0 where
  pub decode_config : Bytes → Option (ℕ × ℕ)
  pub decode : Bytes → Option Image
  pub bounds : Image → ℕ × ℕ
  pub scale : Image → ℕ → ℕ → Image
  pub encode : ℤ → Image → Result Bytes
  pub config_agrees :
      (raw : Bytes) (config : ℕ × ℕ) (image : Image)
      → decode_config raw ≡ some config
      → decode raw ≡ some image
      → bounds image ≡ config
  pub bounds-scale :
      (image : Image) (width height : ℕ) → bounds (scale image width height) ≡ (width, height)

abbrev pub with_defaults : ImageOptions → ImageOptions
with_defaults opts = record opts {
  max_side = if leb_ℤ opts.max_side (pos 0) then default_max_side else opts.max_side;
  quality = if leb_ℤ opts.quality (pos 0) then default_quality else opts.quality;
}

-- `io.ReadAll`
abbrev pub read_to_end : Reader → Result Bytes
read_to_end r = elim r.failure [ none ↦ ret r.content | some e ↦ err e ]

-- The bytes that `io.LimitReader` lets through: one more than allowed, and none if that wraps around.
abbrev pub limit_for : ℕ → ℕ
limit_for max_bytes = if ltb (max_bytes + 1) (2 ^ 63) then max_bytes + 1 else 0

abbrev pub read_limited : Reader → ℕ → Result Bytes
read_limited r n = if leb n (length r.content) then ret (take n r.content) else read_to_end r

-- The bytes of the upload, or the error for one that is too large.
unfoldable pub read_all : ImageOptions → Reader → Result Bytes
read_all opts r =
    if leb_ℤ opts.max_bytes (pos 0)
    then elim (read_to_end r) [
      | err e ↦ err (wrapped "filestorage: read image" e)
      | ret raw ↦ ret raw
    ]
    else elim (read_limited r (limit_for (pos_part opts.max_bytes))) [
      | err e ↦ err (wrapped "filestorage: read image" e)
      | ret raw ↦
          if ltb (pos_part opts.max_bytes) (length raw)
          then err (sentinel Sentinel.too_large)
          else ret raw
    ]

-- The size that `fit` gives an image. The products stay below 2 ^ 63 for an image that passed the limit
-- of pixels.
unfoldable pub fit_size : ℕ × ℕ → ℕ → ℕ × ℕ
fit_size (width, height) max_side =
    if leb width max_side && leb height max_side
    then (width, height)
    else if ltb height width
    then (max_side, height * max_side / width)
    else (width * max_side / height, max_side)

module _ {Image : Type 0} (codec : Codec Image) where
  unfoldable pub fit : Image → ℕ → Image
  fit source max_side =
      let (width, height) = codec.bounds source in
      if leb width max_side && leb height max_side
      then source
      else let (w, h) = fit_size (width, height) max_side in codec.scale source w h

  abbrev pub encoded : ImageOptions → Image → Result Bytes
  encoded opts image = elim (codec.encode opts.quality (fit image (pos_part opts.max_side))) [
    | err e ↦ err (wrapped "filestorage: encode image" e)
    | ret out ↦ ret out
  ]

  -- From the bytes to the JPEG.
  unfoldable pub convert : ImageOptions → Bytes → Result Bytes
  convert opts raw = elim (codec.decode_config raw) [
    | none ↦ err (sentinel Sentinel.not_an_image)
    | some (width, height) ↦
        if ltb max_pixels_limit (width * height)
        then err (sentinel Sentinel.too_many_pix)
        else elim (codec.decode raw) [
          | none ↦ err (sentinel Sentinel.not_an_image)
          | some image ↦ encoded opts image
        ]
  ]

  -- `NormalizeImage`
  unfoldable pub normalize_image : Reader → ImageOptions → Result Bytes
  normalize_image r options =
      let opts = with_defaults options in
      elim (read_all opts r) [ err e ↦ err e | ret raw ↦ convert opts raw ]
