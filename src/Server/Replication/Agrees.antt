-- ===== src/Server/Replication/Agrees.antt =====
-- A backup that stays linked has the primary's file.
use sis_op.Protocol.Msg
use sis_op.Protocol.Carries.{Carries}
use sis_op.Protocol.Reader.{◌>>=◌}
use sis_op.Protocol.Writer
