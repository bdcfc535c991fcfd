-- ===== src/Operator.antt =====
-- The protocols between the gateway and the operators: smsprotocol.h, sms18dxprotocol.h with
-- 18dx.h, and sms5168protocol.h.
pub mod Words
pub mod Dx18
pub mod Simulator
pub mod Api5168
