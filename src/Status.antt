-- ===== src/Status.antt =====
-- src/mg_web.h: the codes that the functions of mg_web.c return.
-- `CACHE_SUCCESS` (0), `CACHE_FAILURE` (-1), `CACHE_NOCON` (-7) and `CACHE_MAXCON` (-120).
pub data Rc : Type 0 where
  success failure nocon maxcon : Rc
