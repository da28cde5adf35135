-- ===== src/Storage.antt =====
-- storage: the columnar file format.
pub mod Bitmap
pub mod Rle
pub mod Dict
pub mod Schema
pub mod Footer
pub mod Blocks
pub mod Writer
pub mod Column
