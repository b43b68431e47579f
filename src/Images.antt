-- ===== src/Images.antt =====
-- pkg/server/image_*.go and the helpers on images: the image service.
pub mod Resolve
pub mod Pull
pub mod Manage
