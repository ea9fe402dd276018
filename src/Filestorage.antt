-- ===== src/Filestorage.antt =====
-- filestorage/: files in an S3 bucket, and the images among them. `Image` is image.go and `Client` filestorage.go.
pub mod Image
pub mod Client
