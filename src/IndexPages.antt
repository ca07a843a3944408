-- ===== src/IndexPages.antt =====
-- crates/editchain-index-pages: ordered maps that live in copy-on-write pages. A page is loaded when
-- it is first read and holds one node; a page is modelled by the node that it holds.
pub mod Sorted
pub mod Replacement
pub mod Rank
