-- ===== src/Quant.antt =====
-- The features over price series and what is made of them, src/quant.
pub mod Features
pub mod NoLookahead
pub mod EventStudy
pub mod ResidualAlpha
pub mod CrossAsset
