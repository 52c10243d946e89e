-- ===== src/Network/Conn/Steps.antt =====
-- network/tcp/conn.go: no step panics, and each keeps the order of the messages.
use czx.Base.{List}
use czx.Network.Parser.{MessageParserConf}
use czx.Network.Parser
