-- ===== src/Logs.antt =====
-- docker.go: the logs of a container: Logs, which reads them as lines, and startLogProduction and
-- stopLogProduction, which hand them to the consumers as frames.
pub mod Frames
pub mod Lines
pub mod Production
