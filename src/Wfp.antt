-- ===== src/Wfp.antt =====
-- wfp/: the objects of the filter engine, their installation and their removal.
pub mod Objects
pub mod Manager
