-- ===== src/Journey/Downward.antt =====
-- The whole way of a message from the library of a BBS to the operator.
use aka_smsd.Common.Code
use aka_smsd.Wire.Cmd
use aka_smsd.Storage
use aka_smsd.Operator.Dx18
