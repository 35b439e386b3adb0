-- ===== src/Xml/Run/Safety.antt =====
-- Runs of a program over XML/bin/runtime.c: what their states have in common.
use pudge_with_mo_ml.Xml.Run.{Run}
