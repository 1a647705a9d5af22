-- ===== src/Image.antt =====
-- The image package (pkg/image): associations of images with their blobs, mappings of sources to
-- destinations, and the conversion of associations to and from lists.
pub mod AssociationSet
pub mod Reference
pub mod Mapping
pub mod Convert
pub mod Builder
